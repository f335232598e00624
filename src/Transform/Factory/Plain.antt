-- ===== src/Transform/Factory/Plain.antt =====
-- The names of the transforms hold no plus sign, which separates them.
use kanzi_go.Base.{
  ℕ, ◌<◌, ◌≡◌, refl, sym, ap, ap₂, ◌∙◌, arith, Bool, true, false, not, ◌&&◌, List, [], ◌∷◌, some,
  ltb, ◌==◌, Bool-cases, inl, inr, length,
}
use kanzi_go.Base.Names.{is_ascii, ascii_upper, Strings, same_name, same_name→eq, switch_number}
use kanzi_go.Transform.Factory.{
  name_cases, get_byte_function_name_token, get_byte_function_type_token, has_plus,
}
use kanzi_go.Transform.Factory.Names.{type_token_iff_name_token}

-- What the names of the table have in common: ASCII, none is empty, has a plus or a small letter.
is_plain : List ℕ → Bool
is_plain n = (not (has_plus n) && (is_ascii n && same_name (ascii_upper n) n)) && ltb 0 (length n)

all_plain : List (ℕ × List ℕ) → Bool
all_plain [] = true
all_plain ((t, n) ∷ cases) = (ltb t 64 && is_plain n) && all_plain cases

found_plain :
    (cases : List (ℕ × List ℕ)) (t : ℕ) (n : List ℕ)
    → all_plain cases ≡ true
    → switch_number cases t ≡ some n
    → (ltb t 64 && is_plain n) ≡ true
unfolding all_plain
found_plain [] t n h e = absurd (ground arith)
found_plain ((k, m) ∷ cases) t n h e = elim (Bool-cases (k == t)) [
  | inl same ↦
      let here : (ltb k 64 && is_plain m) ≡ true = ground arith in
      let eq : k ≡ t = ground arith in
      let eq' : m ≡ n = ground arith in
      ap₂ (λ x y. ltb x 64 && is_plain y) (sym eq) (sym eq') ∙ here
  | inr other ↦ found_plain cases t n (ground arith) (rw other at e)
]

pub record Plain (t : ℕ) (n : List ℕ) : Type 0 where
  pub small : t < 64
  pub no_plus : has_plus n ≡ false
  pub ascii : is_ascii n ≡ true
  pub upper_eq : ascii_upper n ≡ n
  pub nonempty : 0 < length n

table_plain : all_plain name_cases ≡ true
unfolding all_plain is_plain has_plus
table_plain = refl

pub named-Plain : (t : ℕ) (n : List ℕ) → get_byte_function_name_token t ≡ some n → Plain t n
unfolding get_byte_function_name_token is_plain
named-Plain t n e =
    let h : (ltb t 64 && is_plain n) ≡ true = found_plain name_cases t n table_plain e in
    record {
      small = ground arith;
      no_plus = ground arith;
      ascii = ground arith;
      upper_eq = same_name→eq (ascii_upper n) n (ground arith);
      nonempty = ground arith;
    }

pub token_type :
    (strings : Strings) (t : ℕ) (n : List ℕ)
    → get_byte_function_name_token t ≡ some n
    → get_byte_function_type_token strings n ≡ some t
token_type strings t n e =
    let p = named-Plain t n e in
    let upper_eq : strings.to_upper n ≡ n = strings.ascii_law n p.ascii ∙ p.upper_eq in
    (type_token_iff_name_token strings n t).1 (e ∙ ap some (sym upper_eq))
