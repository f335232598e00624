-- ===== src/Bitstream/Input/AsStream.antt =====
-- The stream keeps the promises of the interface, so that the codecs can read from it.
use kanzi_go.Base.{
  ℕ, ◌/◌, ◌%◌, ◌^◌, ◌<◌, ◌≡◌, refl, sym, ap, ap₂, ◌∙◌, arith, List, [], ◌∷◌, ◌++◌, length,
  length-append, ok, IsBytes,
}
use kanzi_go.Base.Digits.{bits, byte_bits, from_bits, from_bits-bits, length-bits}
use kanzi_go.Bitstream.Api.{InputBitStream}
use kanzi_go.Bitstream.Source.{Source}
use kanzi_go.Bitstream.Output.Array.Aligned.{length-byte_bits}
use kanzi_go.Bitstream.Input.{BitInput, read_bit, read_bits}
use kanzi_go.Bitstream.Input.Window.{IsValid, remaining}
use kanzi_go.Bitstream.Input.Read.{Took, take_bits_lem}
use kanzi_go.Bitstream.Input.Bit.{take_bit_lem}
use kanzi_go.Bitstream.Input.Array.{read_array}
use kanzi_go.Bitstream.Input.Array.Progress.{TookBytes}
use kanzi_go.Bitstream.Input.Array.Whole.{read_array_lem}
use native.Mathlib.Nat.{mod-eq_of_lt}

head_of : ℕ → List ℕ → ℕ
head_of d [] = d
head_of d (x ∷ xs) = x

tail_of : List ℕ → List ℕ
tail_of [] = []
tail_of (x ∷ xs) = xs

-- Parts of the same length of one list are the same.
same_parts : (xs ys r s : List ℕ) → length xs ≡ length ys → xs ++ r ≡ ys ++ s → (xs ≡ ys) × (r ≡ s)
unfolding head_of tail_of
same_parts [] [] r s l e = (refl, e)
same_parts [] (y ∷ ys) r s l e = absurd (omega arith)
same_parts (x ∷ xs) [] r s l e = absurd (omega arith)
same_parts (x ∷ xs) (y ∷ ys) r s l e =
    let (p, q) = same_parts xs ys r s (omega arith) (ap tail_of e) in
    (ap₂ ◌∷◌ (ap (head_of 0) e) p, q)

same_value : (k v w : ℕ) → bits k v ≡ bits k w → v % 2 ^ k ≡ w % 2 ^ k
same_value k v w e =
    let p = ap (from_bits 0) e in omega (arith, p, from_bits-bits k v 0, from_bits-bits k w 0)

same_bytes :
    (xs ys : List ℕ)
    → IsBytes xs
    → IsBytes ys
    → length xs ≡ length ys
    → byte_bits xs ≡ byte_bits ys
    → xs ≡ ys
same_bytes [] [] h k l e = refl
same_bytes [] (y ∷ ys) h k l e = absurd (omega arith)
same_bytes (x ∷ xs) [] h k l e = absurd (omega arith)
same_bytes (x ∷ xs) (y ∷ ys) h k l e =
    let (p, q) =
      same_parts (bits 8 x) (bits 8 y) (byte_bits xs) (byte_bits ys)
        (length-bits 8 x ∙ sym (length-bits 8 y)) e in
    let first : x ≡ y = sym (mod-eq_of_lt h.0) ∙ same_value 8 x y p ∙ mod-eq_of_lt k.0 in
    ap₂ ◌∷◌ first (same_bytes xs ys h.1 k.1 (omega arith) q)

pub one_bit : (v bit : ℕ) (r s : List ℕ) → v < 2 → bit ∷ r ≡ bits 1 v ++ s → (v ≡ bit) × (s ≡ r)
unfolding bits head_of tail_of
one_bit v bit r s h e =
    let p : bit ≡ v / 2 ^ 0 % 2 = ap (head_of 0) e in (omega (arith, p), sym (ap tail_of e))

module _ (is : Source) where
  pub Took-value :
      (t t' : BitInput is) (count v value : ℕ) (rest : List ℕ)
      → Took is t t' count v
      → remaining is t ≡ bits count value ++ rest
      → (v ≡ value % 2 ^ count) × (remaining is t' ≡ rest)
  Took-value t t' count v value rest k e =
      let (p, q) =
        same_parts (bits count v) (bits count value) (remaining is t') rest
          (length-bits count v ∙ sym (length-bits count value)) (sym k.taken ∙ e) in
      (sym (mod-eq_of_lt k.bound) ∙ same_value count v value p, q)

  pub TookBytes-block :
      (t t' : BitInput is) (xs block rest : List ℕ)
      → TookBytes is t t' xs
      → IsBytes block
      → length xs ≡ length block
      → remaining is t ≡ byte_bits block ++ rest
      → (xs ≡ block) × (remaining is t' ≡ rest)
  TookBytes-block t t' xs block rest k b l e =
      let (p, q) =
        same_parts (byte_bits xs) (byte_bits block) (remaining is t') rest
          (omega (arith, l, length-byte_bits xs, length-byte_bits block)) (sym k.taken ∙ e) in
      (same_bytes xs block k.bytes b l p, q)

abbrev pub default_input : Source → InputBitStream
default_input is = record {
  State = BitInput is;
  read_bit = read_bit is;
  read_bits = read_bits is;
  read_array = read_array is;
  remaining = remaining is;
  IsOpen = IsValid is;
  read_bit_law = λ t bit rest v e.
      let (w, t', r, k) = take_bit_lem is t v (omega (arith, ap length e)) in
      let (p, q) = one_bit w bit rest (remaining is t') k.bound (sym e ∙ k.taken) in
      (t', r ∙ ap (λ x. ok (x, t')) p, k.valid, q);
  read_bits_law = λ t value count rest v p h e.
      let (w, t', r, k) = take_bits_lem is t count v p h (
        omega
          (arith, ap length e, length-append (bits count value) rest, length-bits count value)) in
      let (x, q) = Took-value is t t' count w value rest k e in
      (t', r ∙ ap (λ y. ok (y, t')) x, k.valid, q);
  read_array_law = λ t block rest v b e.
      let (xs, t', r, l, k) = read_array_lem is t (length block) v (
        omega (arith, ap length e, length-append (byte_bits block) rest, length-byte_bits block)) in
      let (x, q) = TookBytes-block is t t' xs block rest k b l e in
      (t', r ∙ ap (λ y. ok (y, t')) x, k.valid, q);
}
