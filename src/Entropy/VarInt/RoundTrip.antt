-- ===== src/Entropy/VarInt/RoundTrip.antt =====
-- `WriteVarInt` on one stream, `ReadVarInt` on another that starts with the bits it wrote.
use kanzi_go.Base.{
  ℕ, ◌%◌, ◌/◌, ◌^◌, ◌<◌, ◌≤◌, ◌≡◌, ◌≢◌, ap, ◌∙◌, List, [], ◌∷◌, ◌++◌, arith, ok, append-nil,
}
use kanzi_go.Base.Digits.{bits, byte_bits}
use kanzi_go.Bitstream.Api.{OutputBitStream, InputBitStream}
use kanzi_go.Entropy.VarInt.{write_var_int, read_var_int}
use kanzi_go.Entropy.VarInt.Format.{var_int_bytes}
use kanzi_go.Entropy.VarInt.Write.{write_var_int_lem}
use kanzi_go.Entropy.VarInt.Read.{unread, read_var_int_lem}
use native.Mathlib.Nat.{mod-eq_of_lt}

module _ (out : OutputBitStream) (in_ : InputBitStream) where
  -- For a value below 2^28, an open output stream and an open input stream that starts with the bits of the
  -- value's groups: `WriteVarInt` appends those bits to the output, and `ReadVarInt` returns the value,
  -- leaving on the input what follows the bits.
  pub read-write :
      (s : out.State) (t : in_.State) (v : ℕ) (rest : List ℕ)
      → out.IsOpen s
      → in_.IsOpen t
      → v < 2 ^ 28
      → in_.remaining t ≡ byte_bits (var_int_bytes v) ++ rest
      → ((s' : out.State) × (n : ℕ) × (write_var_int out s v ≡ ok (s', n))
          × (out.contents s' ≡ out.contents s ++ byte_bits (var_int_bytes v)))
        × ((t' : in_.State) × (read_var_int in_ t ≡ ok (v, t'))
            × in_.IsOpen t'
            × (in_.remaining t' ≡ rest))
  read-write s t v rest o ot h starts =
      let (s', n, e, o', c, l, five) = write_var_int_lem out s v o (omega arith) in
      let (t', r, ot', left) = read_var_int_lem in_ t v rest ot (omega arith) starts in
      let all_read : unread v ≡ [] = ground arith in
      (
        (s', n, e, c),
        (
          t',
          r ∙ ap (λ m. ok (m, t')) (mod-eq_of_lt h),
          ot',
          left ∙ ap (λ b. byte_bits b ++ rest) all_read,
        ),
      )

  -- For a value from 2^28 to 2^32 - 1, an open output stream and an open input stream that starts
  -- with the bits of the value's groups: `WriteVarInt` appends those bits, from which `ReadVarInt`
  -- returns another value, leaving the last group's byte unread.
  pub read-write_large :
      (s : out.State) (t : in_.State) (v : ℕ) (rest : List ℕ)
      → out.IsOpen s
      → in_.IsOpen t
      → 2 ^ 28 ≤ v
      → v < 2 ^ 32
      → in_.remaining t ≡ byte_bits (var_int_bytes v) ++ rest
      → ((s' : out.State) × (n : ℕ) × (write_var_int out s v ≡ ok (s', n))
          × (out.contents s' ≡ out.contents s ++ byte_bits (var_int_bytes v)))
        × ((t' : in_.State) × (w : ℕ) × (read_var_int in_ t ≡ ok (w, t'))
            × (w ≢ v)
            × (in_.remaining t' ≡ bits 8 (v / 2 ^ 28) ++ rest))
  read-write_large s t v rest o ot lo h starts =
      let (s', n, e, o', c, l, five) = write_var_int_lem out s v o h in
      let (t', r, ot', left) = read_var_int_lem in_ t v rest ot h starts in
      let one_left : unread v ≡ v / 2 ^ 28 ∷ [] = ground arith in
      (
        (s', n, e, c),
        (
          t',
          v % 2 ^ 28,
          r,
          omega arith,
          left
              ∙ ap (λ b. byte_bits b ++ rest) one_left
              ∙ ap (λ b. b ++ rest) (append-nil (bits 8 (v / 2 ^ 28))),
        ),
      )
