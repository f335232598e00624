-- ===== src/Entropy/Binary/Interval.antt =====
-- The coder described on intervals of 56-bit numbers: what a bit does to the interval, and which words
-- a sequence of bits emits.
use kanzi_go.Base.{
  ℕ, zero, suc, ◌+◌, ◌-◌, ◌*◌, ◌/◌, ◌%◌, ◌^◌, ◌<◌, ◌≤◌, ◌≡◌, ◌≢◌, refl, sym, ap, ◌∙◌, arith, Bool,
  List, [], ◌∷◌, ◌++◌, ◌==◌, if◌then◌else◌, Bool-cases, inl, inr, append_assoc,
}
use kanzi_go.Base.Digits.{bits, byte_bits}
use kanzi_go.Entropy.Predictor.{Predictor}
use kanzi_go.Entropy.Binary.{word_bytes}

-- From `low` to `high`, both included.
pub record Interval : Type 0 where
  pub low : ℕ
  pub high : ℕ

abbrev pub split_at : Interval → ℕ → ℕ
split_at i pred = i.low + (i.high - i.low) / 16 * pred / 256

unfoldable pub narrow : Interval → (bit pred : ℕ) → Interval
narrow i bit pred =
    if bit == 0
    then record { low = split_at i pred + 1; high = i.high }
    else record { low = i.low; high = split_at i pred }

-- The upper 32 of 56 bits are settled.
abbrev pub is_settled : Interval → Bool
is_settled i = i.low / 2 ^ 24 == i.high / 2 ^ 24

abbrev pub settled_word : Interval → ℕ
settled_word i = i.high / 2 ^ 24

abbrev pub shifted : Interval → Interval
shifted i = record { low = i.low % 2 ^ 24 * 2 ^ 32; high = i.high % 2 ^ 24 * 2 ^ 32 + (2 ^ 32 - 1) }

unfoldable pub emitted : Interval → List ℕ
emitted i = if is_settled i then word_bytes (settled_word i) else []

unfoldable pub settle : Interval → Interval
settle i = if is_settled i then shifted i else i

-- Between two bits.
pub record IsOpen (i : Interval) : Type 0 where
  pub nonempty : i.low < i.high
  pub bound : i.high < 2 ^ 56
  pub unsettled : i.low / 2 ^ 24 ≢ i.high / 2 ^ 24

-- Behind the split.
pub record IsWithin (i j : Interval) : Type 0 where
  pub nonempty : j.low ≤ j.high
  pub above : i.low ≤ j.low
  pub below : j.high ≤ i.high

pub weighted : (d p : ℕ) → p < 4096 → d * p ≤ d * 4095
weighted d p h = grind arith

pub split_bound : (i : Interval) (p : ℕ) → i.low < i.high → p < 4096 → split_at i p < i.high
split_bound i p h k = omega (arith, weighted ((i.high - i.low) / 16) p k)

pub narrow-IsWithin : (i : Interval) (bit p : ℕ) → IsOpen i → p < 4096 → IsWithin i (narrow i bit p)
unfolding narrow
narrow-IsWithin i bit p o h =
    let n = o.nonempty in
    let s = split_bound i p n h in
    elim (Bool-cases (bit == 0)) [
      | inl e ↦
          rw e (record { nonempty = omega (arith, s); above = omega arith; below = omega arith })
      | inr e ↦
          rw e (record { nonempty = omega arith; above = omega arith; below = omega (arith, s) })
    ]

-- An interval inside an open one is open again once the settled bits are out.
pub settle-IsOpen : (i j : Interval) → IsOpen i → IsWithin i j → IsOpen (settle j)
unfolding settle
settle-IsOpen i j o w =
    let b = o.bound in
    let n = w.nonempty in
    let u = w.below in
    elim (Bool-cases (is_settled j)) [
      | inl e ↦
          let same : j.low / 2 ^ 24 ≡ j.high / 2 ^ 24 = ground arith in
          rw e (record {
            nonempty = omega arith;
            bound = omega arith;
            unsettled = λ f. absurd (omega arith);
          })
      | inr e ↦
          let differ : j.low / 2 ^ 24 ≢ j.high / 2 ^ 24 = ground arith in
          rw e (record { nonempty = omega arith; bound = omega arith; unsettled = differ })
    ]

module _ (P : Predictor) where
  -- One bit, then any number of them: the bytes emitted, the interval and the predictor.
  abbrev pub bit_interval : Interval → P.State → ℕ → Interval
  bit_interval i s bit = narrow i bit (P.get s).0

  abbrev pub next_state : P.State → ℕ → P.State
  next_state s bit = P.update (P.get s).1 bit

  unfoldable pub code : Interval → P.State → List ℕ → List ℕ
  code i s [] = []
  code i s (bit ∷ bits) =
      emitted (bit_interval i s bit) ++ code (settle (bit_interval i s bit)) (next_state s bit) bits

  unfoldable pub final : Interval → P.State → List ℕ → Interval
  final i s [] = i
  final i s (bit ∷ bits) = final (settle (bit_interval i s bit)) (next_state s bit) bits

  unfoldable pub final_state : P.State → List ℕ → P.State
  final_state s [] = s
  final_state s (bit ∷ bits) = final_state (next_state s bit) bits

  abbrev pub AreBits : List ℕ → Type 0
  AreBits [] = Unit {0}
  AreBits (b ∷ bits) = (b < 2) × AreBits bits

  pub bit-IsOpen :
      (i : Interval) (s : P.State) (bit : ℕ)
      → IsOpen i
      → P.IsValid s
      → IsOpen (settle (bit_interval i s bit))
  bit-IsOpen i s bit o v =
      settle-IsOpen i _ o (narrow-IsWithin i bit (P.get s).0 o (P.get_law s v).0)

  pub next_state-IsValid :
      (s : P.State) (bit : ℕ) → P.IsValid s → bit < 2 → P.IsValid (next_state s bit)
  next_state-IsValid s bit v h = P.update_law (P.get s).1 bit (P.get_law s v).1 h

  pub final-IsOpen :
      (i : Interval) (s : P.State) (bits : List ℕ)
      → IsOpen i
      → P.IsValid s
      → AreBits bits
      → IsOpen (final i s bits)
  unfolding final
  final-IsOpen i s [] o v b = o
  final-IsOpen i s (bit ∷ bits) o v b =
      final-IsOpen (settle (bit_interval i s bit)) (next_state s bit) bits (bit-IsOpen i s bit o v)
        (next_state-IsValid s bit v b.0) b.1

  pub final_state-IsValid :
      (s : P.State) (bits : List ℕ) → P.IsValid s → AreBits bits → P.IsValid (final_state s bits)
  unfolding final_state
  final_state-IsValid s [] v b = v
  final_state-IsValid s (bit ∷ bits) v b =
      final_state-IsValid (next_state s bit) bits (next_state-IsValid s bit v b.0) b.1

  pub code-append :
      (i : Interval) (s : P.State) (xs ys : List ℕ)
      → code i s (xs ++ ys) ≡ code i s xs ++ code (final i s xs) (final_state s xs) ys
  unfolding code final final_state
  code-append i s [] ys = refl
  code-append i s (x ∷ xs) ys =
      let j = bit_interval i s x in
      ap (λ r. emitted j ++ r) (code-append (settle j) (next_state s x) xs ys)
      ∙ sym (
          append_assoc (emitted j) (code (settle j) (next_state s x) xs)
            (code (final (settle j) (next_state s x) xs) (final_state (next_state s x) xs) ys))

  pub final-append :
      (i : Interval) (s : P.State) (xs ys : List ℕ)
      → final i s (xs ++ ys) ≡ final (final i s xs) (final_state s xs) ys
  unfolding final final_state
  final-append i s [] ys = refl
  final-append i s (x ∷ xs) ys = final-append (settle (bit_interval i s x)) (next_state s x) xs ys

  pub final_state-append :
      (s : P.State) (xs ys : List ℕ) → final_state s (xs ++ ys) ≡ final_state (final_state s xs) ys
  unfolding final_state
  final_state-append s [] ys = refl
  final_state-append s (x ∷ xs) ys = final_state-append (next_state s x) xs ys

  pub bits-AreBits : (k v : ℕ) → AreBits (bits k v)
  unfolding bits
  bits-AreBits zero v = tt
  bits-AreBits (suc k) v = (omega arith, bits-AreBits k v)

  append-AreBits : (xs ys : List ℕ) → AreBits xs → AreBits ys → AreBits (xs ++ ys)
  append-AreBits [] ys h k = k
  append-AreBits (x ∷ xs) ys h k = (h.0, append-AreBits xs ys h.1 k)

  pub byte_bits-AreBits : (xs : List ℕ) → AreBits (byte_bits xs)
  byte_bits-AreBits [] = tt
  byte_bits-AreBits (x ∷ xs) =
      append-AreBits (bits 8 x) (byte_bits xs) (bits-AreBits 8 x) (byte_bits-AreBits xs)
