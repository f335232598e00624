-- ===== src/Bitstream/Input/Refill.antt =====
-- The buffer is filled from the source when it is used up.
use kanzi_go.Base.{
  if_cong, ℕ, zero, suc, ◌+◌, ◌-◌, ◌<◌, ◌≤◌, ◌≡◌, ◌≢◌, ◌⊎◌, inl, inr, refl, sym, ap, ap₂, ◌∙◌,
  arith, true, false, List, [], ◌∷◌, ◌++◌, u64, shl, leb, ◌==◌, Bool-cases, length, take, drop,
  length-drop, length-take, min, length-append, take-length-append, take-append-drop, ok,
}
use kanzi_go.Base.Bytes.{take-IsBytes, drop-IsBytes, append-IsBytes}
use kanzi_go.Base.Digits.{byte_bits}
use kanzi_go.Bitstream.Source.{Source}
use kanzi_go.Bitstream.Input.{BitInput, take_word, pull, read_from_source, after_read}
use kanzi_go.Bitstream.Input.Window.{IsValid, rest_bytes}
use kanzi_go.Bitstream.Input.Pull.{Pulled, take_word_lem}

module _ (is : Source) where
  -- The stream after a read of `xs`.
  abbrev pub refilled : BitInput is → List ℕ → is.State → BitInput is
  refilled t xs s = record t {
    bits_read = u64 (t.bits_read + shl t.position 3);
    position = 0;
    source = s;
    limit = length xs;
    buffer = xs ++ drop (length xs) t.buffer;
  }

  -- What was left in the buffer is gone.
  pub record Refilled (t t' : BitInput is) : Type 0 where
    pub valid : IsValid is t'
    pub new_bytes : rest_bytes is t' ≡ is.pending t.source
    pub counted : u64 (t'.bits_read + shl t'.position 3) ≡ u64 (t.bits_read + shl t.position 3)
    pub nonempty : t'.position < t'.limit
    pub avail_eq : t'.avail_bits ≡ t.avail_bits
    pub current_eq : t'.current ≡ t.current

  after_read_eq :
      (t : BitInput is) (xs : List ℕ) (s : is.State)
      → 0 < length xs
      → after_read is t (false, xs, s) ≡ (false, refilled t xs s)
  unfolding after_read
  after_read_eq t [] s h = absurd (omega arith)
  after_read_eq t (x ∷ xs) s h = refl

  read_eq :
      (t : BitInput is) (xs : List ℕ) (s : is.State)
      → t.closed ≡ false
      → 0 < length t.buffer
      → is.read t.source (length t.buffer) ≡ (false, xs, s)
      → 0 < length xs
      → read_from_source is t ≡ (false, refilled t xs s)
  unfolding read_from_source
  read_eq t xs s c h e l =
      let some_room : (length t.buffer == 0) ≡ false = ground arith in
      if_cong t.closed false _ _ c
      ∙ if_cong (length t.buffer == 0) false _ _ some_room
      ∙ ap (after_read is t) e
      ∙ after_read_eq t xs s l

  length_pos : (xs : List ℕ) → xs ≢ [] → 0 < length xs
  length_pos [] h = absurd (h refl)
  length_pos (x ∷ xs) h = omega arith

  drop_all : (n : ℕ) (xs : List ℕ) → length xs ≤ n → drop n xs ≡ []
  drop_all zero [] h = refl
  drop_all (suc n) [] h = refl
  drop_all zero (x ∷ xs) h = absurd (omega arith)
  drop_all (suc n) (x ∷ xs) h = drop_all n xs (omega arith)

  pub refill_lem :
      (t : BitInput is)
      → IsValid is t
      → is.pending t.source ≢ []
      → (t' : BitInput is) × (read_from_source is t ≡ (false, t')) × Refilled t t'
  refill_lem t v h =
      let sized = v.sized in
      let whole = v.whole in
      let n = length t.buffer in
      let p = is.pending t.source in
      let (s, r, o, d) = is.read_law t.source n v.source_open (omega arith) h in
      let xs = take n p in
      let p_pos = length_pos p h in
      let l : length xs ≡ min n (length p) = length-take n p in
      let some_read : 0 < length xs = omega (arith, l, p_pos) in
      let buffer_length : length (xs ++ drop (length xs) t.buffer) ≡ n = omega (
        arith,
        length-append xs (drop (length xs) t.buffer),
        length-drop (length xs) t.buffer,
        l,
      ) in
      let minus_zero : length xs - 0 ≡ length xs = omega arith in
      (
        refilled t xs s,
        read_eq t xs s v.is_open (omega arith) r some_read,
        record {
          valid = record {
            is_open = v.is_open;
            inside = omega arith;
            within = omega (arith, buffer_length, l);
            sized = omega (arith, buffer_length);
            whole = omega (arith, buffer_length);
            aligned = inl refl;
            filled = inr (full_or_last n p s d l buffer_length);
            bytes =
                append-IsBytes xs (drop (length xs) t.buffer)
                  (take-IsBytes n p (is.bytes_law t.source v.source_open))
                  (drop-IsBytes (length xs) t.buffer v.bytes);
            source_open = o;
            avail_bound = v.avail_bound;
          };
          new_bytes =
              ap (λ k. take k (xs ++ drop (length xs) t.buffer) ++ is.pending s) minus_zero
              ∙ ap₂ ◌++◌ (take-length-append xs (drop (length xs) t.buffer)) d
              ∙ take-append-drop n p;
          counted = omega arith;
          nonempty = some_read;
          avail_eq = refl;
          current_eq = refl;
        },
      )
    where
      full_or_last :
          (n : ℕ) (p : List ℕ) (s : is.State)
          → is.pending s ≡ drop n p
          → length (take n p) ≡ min n (length p)
          → length (take n p ++ drop (length (take n p)) t.buffer) ≡ n
          → (length (take n p) ≡ length (take n p ++ drop (length (take n p)) t.buffer))
            ⊎ (is.pending s ≡ [])
      full_or_last n p s d l b = elim (Bool-cases (leb (length p) n)) [
        | inl e ↦ inr (d ∙ drop_all n p (ground arith))
        | inr e ↦ inl (let f : n < length p = ground arith in omega (arith, l, b))
      ]

  pub used_up_lem : (t : BitInput is) → t.position ≡ t.limit → rest_bytes is t ≡ is.pending t.source
  used_up_lem t e =
      let empty : t.limit - t.position ≡ 0 = omega arith in
      ap (λ k. take k (drop t.position t.buffer) ++ is.pending t.source) empty

  pull_first :
      (t t' : BitInput is)
      → t.position ≡ t.limit
      → read_from_source is t ≡ (false, t')
      → pull is t ≡ take_word is t'
  unfolding pull
  pull_first t t' e r =
      let used_up : leb t.limit t.position ≡ true = ground arith in rw (used_up, pull) (rw r refl)

  pull_rest : (t : BitInput is) → t.position < t.limit → pull is t ≡ take_word is t
  unfolding pull
  pull_rest t h =
      let not_used_up : leb t.limit t.position ≡ false = ground arith in rw (not_used_up, pull) refl

  pub pull_lem :
      (t : BitInput is)
      → IsValid is t
      → rest_bytes is t ≢ []
      → (t' : BitInput is) × (pull is t ≡ ok t') × Pulled is t t'
  pull_lem t v h =
      let inside = v.inside in
      elim (Bool-cases (leb t.limit t.position)) [
        | inr more ↦
            let rest : t.position < t.limit = ground arith in
            let (t', e, p) = take_word_lem is t v rest in (t', pull_rest t rest ∙ e, p)
        | inl none_left ↦
            let at : t.position ≡ t.limit = ground arith in
            let all = used_up_lem t at in
            let (u, r, f) = refill_lem t v (λ e. h (all ∙ e)) in
            let (t', e, p) = take_word_lem is u f.valid f.nonempty in
            let a = f.counted in
            let b = p.counted in
            (
              t',
              pull_first t u at r ∙ e,
              record {
                valid = p.valid;
                taken = ap byte_bits (all ∙ sym f.new_bytes) ∙ p.taken;
                some_bits = p.some_bits;
                current_bound = p.current_bound;
                last = p.last;
                counted = omega (arith, a, b);
              },
            )
      ]
