-- ===== src/Bitstream/Input/Close.antt =====
-- `Close`.
use kanzi_go.Base.{
  if_cong, ℕ, ◌≡◌, refl, ◌∙◌, arith, true, false, sub64, ltb, leb, ◌==◌, ◌||◌, Bool-cases, inl, inr,
  panic,
}
use kanzi_go.Bitstream.Source.{Source}
use kanzi_go.Bitstream.Input.{
  BitInput, read_from_source, pull, read_bit, read_more_bits, read_bits, has_more_to_read, close,
  bits_consumed,
}
use kanzi_go.Bitstream.Input.Window.{IsValid}
use kanzi_go.Bitstream.Input.Array.{read_array}

module _ (is : Source) where
  pub record IsShut (t : BitInput is) : Type 0 where
    pub closed_eq : t.closed ≡ true
    pub avail_eq : t.avail_bits ≡ 0
    pub limit_eq : t.limit ≡ 0

  pull_shut : (t : BitInput is) → IsShut t → pull is t ≡ panic
  unfolding pull read_from_source
  pull_shut t s =
      let l = s.limit_eq in
      let used_up : leb t.limit t.position ≡ true = ground arith in
      let c = s.closed_eq in if_cong (leb t.limit t.position) true _ _ used_up ∙ rw c refl

  read_bit_shut : (t : BitInput is) → IsShut t → read_bit is t ≡ panic
  unfolding read_bit
  read_bit_shut t s =
      let a = s.avail_eq in
      let none_left : (t.avail_bits == 0) ≡ true = ground arith in
      rw (none_left, read_bit) (rw (pull_shut t s, read_bit) refl)

  read_bits_shut : (t : BitInput is) (count : ℕ) → IsShut t → read_bits is t count ≡ panic
  unfolding read_bits read_more_bits
  read_bits_shut t count s = elim (Bool-cases (count == 0 || ltb 64 count)) [
    | inl out ↦ if_cong (count == 0 || ltb 64 count) true _ _ out
    | inr within ↦
        let a = s.avail_eq in
        let few : leb count t.avail_bits ≡ false = ground arith in
        if_cong (count == 0 || ltb 64 count) false _ _ within
        ∙ if_cong (leb count t.avail_bits) false _ _ few
        ∙ rw (pull_shut t s, read_bits) refl
  ]

  read_array_shut : (t : BitInput is) (count : ℕ) → IsShut t → read_array is t count ≡ panic
  unfolding read_array
  read_array_shut t count s = if_cong t.closed true _ _ s.closed_eq

  has_more_shut : (t : BitInput is) → IsShut t → has_more_to_read is t ≡ ((false, true), t)
  unfolding has_more_to_read
  has_more_shut t s = if_cong t.closed true _ _ s.closed_eq

  close_again : (t : BitInput is) → t.closed ≡ true → close is t ≡ t
  unfolding close
  close_again t e = if_cong t.closed true _ _ e

  close_open :
      (t : BitInput is)
      → t.closed ≡ false
      → close is t ≡ record t {
        closed = true;
        bits_read = sub64 t.bits_read t.avail_bits;
        avail_bits = 0;
        limit = 0;
      }
  unfolding close
  close_open t e = if_cong t.closed false _ _ e

  -- `Close` of a valid stream drops what is in the buffer but keeps the number of bits that `Read` tells. From
  -- then on `ReadBit`, `ReadBits` and `ReadArray` panic, `HasMoreToRead` reports an error, and another `Close`
  -- does nothing.
  pub close_input_lem :
      (t : BitInput is) (count : ℕ)
      → IsValid is t
      → (t' : BitInput is) × (close is t ≡ t')
        × (t'.closed ≡ true)
        × (bits_consumed is t' ≡ bits_consumed is t)
        × (read_bit is t' ≡ panic)
        × (read_bits is t' count ≡ panic)
        × (read_array is t' count ≡ panic)
        × (has_more_to_read is t' ≡ ((false, true), t'))
        × (close is t' ≡ t')
  close_input_lem t count v =
      let t' : BitInput is = record t {
        closed = true;
        bits_read = sub64 t.bits_read t.avail_bits;
        avail_bits = 0;
        limit = 0;
      } in
      let s : IsShut t' = record { closed_eq = refl; avail_eq = refl; limit_eq = refl } in
      let b = v.avail_bound in
      (
        t',
        close_open t v.is_open,
        refl,
        omega arith,
        read_bit_shut t' s,
        read_bits_shut t' count s,
        read_array_shut t' count s,
        has_more_shut t' s,
        close_again t' refl,
      )
