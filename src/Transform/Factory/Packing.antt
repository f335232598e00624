-- ===== src/Transform/Factory/Packing.antt =====
-- Names and types of sequences of transforms.
use kanzi_go.Base.{
  ℕ, zero, suc, ◌+◌, ◌-◌, ◌*◌, ◌%◌, ◌^◌, ◌<◌, ◌≤◌, ◌≡◌, ◌≢◌, refl, sym, ap, ap₂, ◌∙◌, arith, true,
  false, List, [], ◌∷◌, ◌++◌, append-nil, append_assoc, none, some, bit_or, shl, shr, u64, ltb,
  ◌==◌, if◌then◌else◌, if_cong, Bool-cases, inl, inr, length, length-append,
}
use kanzi_go.Base.Pow.{two_pow_pos, two_pow_add, two_pow_mono, div_fields, mod_fields}
use kanzi_go.Base.Masks.{or_fields, and_mask}
use kanzi_go.Base.Names.{Strings}
use kanzi_go.Transform.Factory.{
  get_byte_function_name_token, get_byte_function_type_token, place_of, append_name, name_places,
  name_or_none, get_name, has_plus, to_first, split_plus, pack_tokens, get_type, plus, none_type,
}
use native.Mathlib.Nat.{mod-eq_of_lt, mul-lt-mul_of_pos_right}
use kanzi_go.Transform.Factory.Plain.{named-Plain, token_type}

-- Types with their names: the first is not that of the null transform.
abbrev pub AreNamed : List (ℕ × List ℕ) → Type 0
AreNamed [] = Unit {0}
AreNamed ((t, n) ∷ ps) = ((t ≢ 0) × (get_byte_function_name_token t ≡ some n)) × AreNamed ps

-- The types in `k` places of six bits, the names joined by a plus.
abbrev pub packed : ℕ → List (ℕ × List ℕ) → ℕ
packed k [] = 0
packed zero (p ∷ ps) = 0
packed (suc k) ((t, n) ∷ ps) = t * 2 ^ (6 * k) + packed k ps

abbrev pub after : List (ℕ × List ℕ) → List ℕ
after [] = []
after ((t, n) ∷ ps) = plus ∷ (n ++ after ps)

abbrev pub joined : List (ℕ × List ℕ) → List ℕ
joined [] = []
joined ((t, n) ∷ ps) = n ++ after ps

abbrev names : List (ℕ × List ℕ) → List (List ℕ)
names [] = []
names ((t, n) ∷ ps) = n ∷ names ps

packed-bound : (k : ℕ) (ps : List (ℕ × List ℕ)) → AreNamed ps → packed k ps < 2 ^ (6 * k)
packed-bound k [] h = two_pow_pos (6 * k)
packed-bound zero (p ∷ ps) h = two_pow_pos 0
packed-bound (suc k) ((t, n) ∷ ps) h =
    let small = (named-Plain t n h.0.1).small in
    let e : 6 * suc k ≡ 6 + 6 * k = omega arith in
    let p : 2 ^ (6 * suc k) ≡ 64 * 2 ^ (6 * k) = ap (λ x. 2 ^ x) e ∙ two_pow_add 6 (6 * k) in
    let rest = packed-bound k ps h.1 in omega (arith, p, rest, room t (2 ^ (6 * k)) small)
  where
    room : (t p : ℕ) → t < 64 → t * p + p ≤ 64 * p
    room t p h = grind arith

split_step : (n y : List ℕ) → has_plus n ≡ false → split_plus (n ++ (plus ∷ y)) ≡ n ∷ split_plus y
unfolding has_plus split_plus
split_step [] y h = refl
split_step (c ∷ n) y h = elim (Bool-cases (c == plus)) [
  | inl e ↦ absurd (ground arith)
  | inr e ↦ if_cong (c == plus) false _ _ e ∙ ap (to_first c) (split_step n y (ground arith))
]

split_last : (n : List ℕ) → has_plus n ≡ false → split_plus n ≡ n ∷ []
unfolding has_plus split_plus
split_last [] h = refl
split_last (c ∷ n) h = elim (Bool-cases (c == plus)) [
  | inl e ↦ absurd (ground arith)
  | inr e ↦ if_cong (c == plus) false _ _ e ∙ ap (to_first c) (split_last n (ground arith))
]

split-joined :
    (t : ℕ) (n : List ℕ) (ps : List (ℕ × List ℕ))
    → AreNamed ((t, n) ∷ ps)
    → split_plus (joined ((t, n) ∷ ps)) ≡ n ∷ names ps
split-joined t n [] h = ap split_plus (append-nil n) ∙ split_last n (named-Plain t n h.0.1).no_plus
split-joined t n ((u, m) ∷ ps) h =
    split_step n (m ++ after ps) (named-Plain t n h.0.1).no_plus
    ∙ ap (λ r. n ∷ r) (split-joined u m ps h.1)

plus_found : (n y : List ℕ) → has_plus (n ++ (plus ∷ y)) ≡ true
unfolding has_plus
plus_found [] y = refl
plus_found (c ∷ n) y = elim (Bool-cases (c == plus)) [
  | inl e ↦ if_cong (c == plus) true _ _ e
  | inr e ↦ if_cong (c == plus) false _ _ e ∙ plus_found n y
]

pack_step :
    (strings : Strings) (t : ℕ) (n : List ℕ) (tokens : List (List ℕ)) (shift res : ℕ)
    → t ≢ 0
    → get_byte_function_type_token strings n ≡ some t
    → pack_tokens strings (n ∷ tokens) shift res
      ≡ pack_tokens strings tokens (shift - 6) (bit_or res (u64 (shl t shift)))
unfolding pack_tokens
pack_step strings t n tokens shift res h e =
    let some_type : (t == none_type) ≡ false = ground arith in
    rw (e, pack_tokens) (rw (some_type, pack_tokens) refl)

-- One type more in its place.
add_type :
    (q t k : ℕ)
    → t < 64
    → k ≤ 7
    → bit_or (q * 2 ^ (6 * suc k)) (u64 (shl t (6 * k))) ≡ (q * 64 + t) * 2 ^ (6 * k)
add_type q t k h b =
    let e : 6 * suc k ≡ 6 + 6 * k = omega arith in
    let p : 2 ^ (6 * suc k) ≡ 64 * 2 ^ (6 * k) = ap (λ x. 2 ^ x) e ∙ two_pow_add 6 (6 * k) in
    let small : t * 2 ^ (6 * k) < 2 ^ (6 * suc k) = omega (
      arith,
      p,
      mul-lt-mul_of_pos_right {m = t} {n = 64} {k = 2 ^ (6 * k)} h (two_pow_pos (6 * k)),
    ) in
    let wide : 2 ^ (6 * suc k) ≤ 2 ^ 64 = two_pow_mono (6 * suc k) 64 (omega arith) in
    ap (bit_or (q * 2 ^ (6 * suc k))) (mod-eq_of_lt (omega (arith, small, wide)))
    ∙ or_fields (6 * suc k) q (t * 2 ^ (6 * k)) small
    ∙ ap (λ x. q * x + t * 2 ^ (6 * k)) p
    ∙ omega arith

pack_tokens_lem :
    (strings : Strings) (k q : ℕ) (ps : List (ℕ × List ℕ))
    → AreNamed ps
    → length ps ≤ k
    → k ≤ 8
    → pack_tokens strings (names ps) (6 * k - 6) (q * 2 ^ (6 * k))
      ≡ some (q * 2 ^ (6 * k) + packed k ps)
unfolding pack_tokens
pack_tokens_lem strings k q [] h l b = ap some (omega arith)
pack_tokens_lem strings zero q (p ∷ ps) h l b = absurd (omega arith)
pack_tokens_lem strings (suc k) q ((t, n) ∷ ps) h l b =
    let shift : 6 * suc k - 6 ≡ 6 * k = omega arith in
    let e : 6 * suc k ≡ 6 + 6 * k = omega arith in
    let p : 2 ^ (6 * suc k) ≡ 64 * 2 ^ (6 * k) = ap (λ x. 2 ^ x) e ∙ two_pow_add 6 (6 * k) in
    pack_step strings t n (names ps) (6 * suc k - 6) (q * 2 ^ (6 * suc k)) h.0.0
      (token_type strings t n h.0.1)
    ∙ ap
        (λ s. pack_tokens strings (names ps) (s - 6) (bit_or (q * 2 ^ (6 * suc k)) (u64 (shl t s))))
        shift
    ∙ ap (pack_tokens strings (names ps) (6 * k - 6))
        (add_type q t k (named-Plain t n h.0.1).small (omega arith))
    ∙ pack_tokens_lem strings k (q * 64 + t) ps h.1 (omega arith) (omega arith)
    ∙ ap some (omega (arith, ap (λ x. q * x) p))

-- The type at the place of the highest of `k` fields.
place_lem :
    (k i q t r : ℕ)
    → suc k + i ≡ 8
    → t < 64
    → r < 2 ^ (6 * k)
    → place_of (q * 2 ^ (6 * suc k) + (t * 2 ^ (6 * k) + r)) i ≡ t
place_lem k i q t r e h b =
    let shift : 42 - 6 * i ≡ 6 * k = omega arith in
    let f : 6 * suc k ≡ 6 + 6 * k = omega arith in
    let p : 2 ^ (6 * suc k) ≡ 64 * 2 ^ (6 * k) = ap (λ x. 2 ^ x) f ∙ two_pow_add 6 (6 * k) in
    let fields : q * 2 ^ (6 * suc k) + (t * 2 ^ (6 * k) + r) ≡ (q * 64 + t) * 2 ^ (6 * k) + r =
      omega (arith, ap (λ x. q * x) p) in
    and_mask 6 (shr (q * 2 ^ (6 * suc k) + (t * 2 ^ (6 * k) + r)) (42 - 6 * i))
    ∙ ap₂ (λ x s. shr x s % 64) fields shift
    ∙ ap (λ x. x % 64) (div_fields (q * 64 + t) r (2 ^ (6 * k)) b)
    ∙ mod_fields q t 64 h

no_type :
    (n i function_type : ℕ) (s : List ℕ)
    → place_of function_type i ≡ 0
    → name_places (suc n) i function_type s ≡ name_places n (suc i) function_type s
unfolding name_places
no_type n i function_type s e =
    let none_there : (place_of function_type i == none_type) ≡ true = ground arith in
    rw (none_there, name_places) refl

one_type :
    (n i function_type t : ℕ) (name s : List ℕ)
    → place_of function_type i ≡ t
    → t ≢ 0
    → get_byte_function_name_token t ≡ some name
    → name_places (suc n) i function_type s
      ≡ name_places n (suc i) function_type (append_name s name)
unfolding name_places
one_type n i function_type t name s e h g =
    let some_type : (place_of function_type i == none_type) ≡ false = ground arith in
    let named : get_byte_function_name_token (place_of function_type i) ≡ some name =
      ap get_byte_function_name_token e ∙ g in
    rw (some_type, name_places) (rw (named, name_places) refl)

abbrev with_names : List ℕ → List (ℕ × List ℕ) → List ℕ
with_names [] ps = joined ps
with_names (c ∷ s) ps = (c ∷ s) ++ after ps

with_names_step :
    (s n : List ℕ) (t : ℕ) (ps : List (ℕ × List ℕ))
    → 0 < length n
    → with_names (append_name s n) ps ≡ with_names s ((t, n) ∷ ps)
with_names_step [] [] t ps h = absurd (omega arith)
with_names_step [] (d ∷ n) t ps h = refl
with_names_step (c ∷ s) n t ps h = append_assoc (c ∷ s) (plus ∷ n) (after ps)

with_nothing : (s : List ℕ) → with_names s [] ≡ s
with_nothing [] = refl
with_nothing (c ∷ s) = append-nil (c ∷ s)

name_places_lem :
    (k i q : ℕ) (ps : List (ℕ × List ℕ)) (s : List ℕ)
    → k + i ≡ 8
    → AreNamed ps
    → length ps ≤ k
    → name_places k i (q * 2 ^ (6 * k) + packed k ps) s ≡ some (with_names s ps)
unfolding name_places
name_places_lem zero i q [] s e h l = ap some (sym (with_nothing s))
name_places_lem zero i q (p ∷ ps) s e h l = absurd (omega arith)
name_places_lem (suc k) i q [] s e h l =
    let f : 6 * suc k ≡ 6 + 6 * k = omega arith in
    let p : 2 ^ (6 * suc k) ≡ 64 * 2 ^ (6 * k) = ap (λ x. 2 ^ x) f ∙ two_pow_add 6 (6 * k) in
    let ft = q * 2 ^ (6 * suc k) + 0 in
    let place : place_of ft i ≡ 0 =
      ap (λ x. place_of x i) (omega arith)
      ∙ place_lem k i q 0 0 e (omega arith) (two_pow_pos (6 * k)) in
    let same : ft ≡ (q * 64) * 2 ^ (6 * k) + 0 = omega (arith, ap (λ x. q * x) p) in
    no_type k i ft s place
    ∙ ap (λ x. name_places k (suc i) x s) same
    ∙ name_places_lem k (suc i) (q * 64) [] s (omega arith) tt (omega arith)
name_places_lem (suc k) i q ((t, n) ∷ ps) s e h l =
    let plain = named-Plain t n h.0.1 in
    let f : 6 * suc k ≡ 6 + 6 * k = omega arith in
    let p : 2 ^ (6 * suc k) ≡ 64 * 2 ^ (6 * k) = ap (λ x. 2 ^ x) f ∙ two_pow_add 6 (6 * k) in
    let ft = q * 2 ^ (6 * suc k) + (t * 2 ^ (6 * k) + packed k ps) in
    let same : ft ≡ (q * 64 + t) * 2 ^ (6 * k) + packed k ps = omega (arith, ap (λ x. q * x) p) in
    one_type k i ft t n s (place_lem k i q t (packed k ps) e plain.small (packed-bound k ps h.1))
      h.0.0 h.0.1
    ∙ ap (λ x. name_places k (suc i) x (append_name s n)) same
    ∙ name_places_lem k (suc i) (q * 64 + t) ps (append_name s n) (omega arith) h.1 (omega arith)
    ∙ ap some (with_names_step s n t ps plain.nonempty)

kept_name : (s : List ℕ) → 0 < length s → name_or_none s ≡ some s
unfolding name_or_none
kept_name [] h = absurd (omega arith)
kept_name (c ∷ s) h = refl

get_name_lem :
    (t : ℕ) (n : List ℕ) (ps : List (ℕ × List ℕ))
    → AreNamed ((t, n) ∷ ps)
    → length ps ≤ 7
    → get_name (packed 8 ((t, n) ∷ ps)) ≡ some (joined ((t, n) ∷ ps))
unfolding get_name
get_name_lem t n ps h l =
    let places = name_places_lem 8 0 0 ((t, n) ∷ ps) [] refl h (omega arith) in
    let nonempty = (named-Plain t n h.0.1).nonempty in
    let start : 0 * 2 ^ (6 * 8) + packed 8 ((t, n) ∷ ps) ≡ packed 8 ((t, n) ∷ ps) = omega arith in
    let found : name_places 8 0 (packed 8 ((t, n) ∷ ps)) [] ≡ some (joined ((t, n) ∷ ps)) =
      ap (λ x. name_places 8 0 x []) (sym start) ∙ places in
    ap (λ o. elim o [ none ↦ none | some s ↦ name_or_none s ]) found
    ∙ kept_name (n ++ after ps) (omega (arith, length-append n (after ps)))

length-names : (ps : List (ℕ × List ℕ)) → length (names ps) ≡ length ps
length-names [] = refl
length-names (p ∷ ps) = ap suc (length-names ps)

get_type_lem :
    (strings : Strings) (t : ℕ) (n : List ℕ) (ps : List (ℕ × List ℕ))
    → AreNamed ((t, n) ∷ ps)
    → length ps ≤ 7
    → get_type strings (joined ((t, n) ∷ ps)) ≡ some (packed 8 ((t, n) ∷ ps))
unfolding get_type
get_type_lem strings t n [] h l =
    let plain = named-Plain t n h.0.1 in
    let small = plain.small in
    let single : has_plus (n ++ []) ≡ false = ap has_plus (append-nil n) ∙ plain.no_plus in
    let type : get_byte_function_type_token strings (n ++ []) ≡ some t =
      ap (get_byte_function_type_token strings) (append-nil n) ∙ token_type strings t n h.0.1 in
    if_cong (has_plus (n ++ [])) false _ _ single
    ∙ ap (λ o. elim o [ none ↦ none | some t ↦ some (u64 (shl t 42)) ]) type
    ∙ ap some (omega arith)
get_type_lem strings t n ((u, m) ∷ ps) h l =
    let qs = (u, m) ∷ ps in
    let tokens = split-joined t n qs h in
    let few : ltb 8 (length (n ∷ names qs)) ≡ false = let k = length-names qs in ground arith in
    if_cong (has_plus (n ++ after qs)) true _ _ (plus_found n (m ++ after ps))
    ∙ ap (λ l. if ltb 8 (length l) then none else pack_tokens strings l 42 0) tokens
    ∙ if_cong (ltb 8 (length (n ∷ names qs))) false _ _ few
    ∙ pack_tokens_lem strings 8 0 ((t, n) ∷ qs) h (omega arith) (omega arith)
    ∙ ap some (omega arith)

-- For a `strings.ToUpper` that maps ASCII as documented, and one to eight transforms, none of them null, given
-- by their types and the names of these: `GetType` of the names joined by plus signs is the number that has the
-- types in its six-bit places, from the highest one on, and `GetName` of that number is the joined names.
pub get_type-get_name :
    (strings : Strings) (t : ℕ) (n : List ℕ) (ps : List (ℕ × List ℕ))
    → AreNamed ((t, n) ∷ ps)
    → length ps ≤ 7
    → (get_type strings (joined ((t, n) ∷ ps)) ≡ some (packed 8 ((t, n) ∷ ps)))
      × (get_name (packed 8 ((t, n) ∷ ps)) ≡ some (joined ((t, n) ∷ ps)))
get_type-get_name strings t n ps h l = (get_type_lem strings t n ps h l, get_name_lem t n ps h l)
