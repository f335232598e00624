-- ===== src/Bitstream/Input/Start.antt =====
-- A new stream.
use kanzi_go.Base.{
  ℕ, ◌%◌, ◌^◌, ◌≤◌, ◌≡◌, inl, refl, arith, false, not, ltb, shl, bit_and, ◌==◌, replicate,
  length-replicate, some,
}
use kanzi_go.Base.Bytes.{replicate-IsBytes}
use kanzi_go.Base.Masks.{and_mask}
use kanzi_go.Base.Digits.{bits, byte_bits}
use kanzi_go.Bitstream.Source.{Source}
use kanzi_go.Bitstream.Input.{BitInput, new_bit_input, bits_consumed}
use kanzi_go.Bitstream.Input.Window.{IsValid, remaining}

module _ (is : Source) where
  abbrev fresh : is.State → ℕ → BitInput is
  fresh s size = record {
    closed = false;
    bits_read = 0;
    position = 0;
    avail_bits = 0;
    source = s;
    buffer = replicate size 0;
    limit = 0;
    current = 0;
  }

  -- For an open source and a buffer of 1024 to 2^29 bytes, a multiple of eight, the constructor returns a valid
  -- stream that has read no bit, and what is still to be read are the bits of the source's bytes.
  pub new_bit_input_lem :
      (s : is.State) (size : ℕ)
      → is.IsOpen s
      → 1024 ≤ size
      → size ≤ 2 ^ 29
      → size % 8 ≡ 0
      → (t : BitInput is) × (new_bit_input is s size ≡ some t)
        × IsValid is t
        × (remaining is t ≡ byte_bits (is.pending s))
        × (bits_consumed is t ≡ 0)
  unfolding new_bit_input bits
  new_bit_input_lem s size o l h e =
      let large : ltb size 1024 ≡ false = ground arith in
      let small : ltb (shl 1 29) size ≡ false = ground arith in
      let eighth : not (bit_and size 7 == 0) ≡ false = let m = and_mask 3 size in ground arith in
      let n = length-replicate {A = ℕ} size 0 in
      (
        fresh s size,
        rw (large, small, eighth) refl,
        record {
          is_open = refl;
          inside = omega arith;
          within = omega arith;
          sized = omega (arith, n);
          whole = omega (arith, n);
          aligned = inl refl;
          filled = inl refl;
          bytes = replicate-IsBytes size 0 (omega arith);
          source_open = o;
          avail_bound = omega arith;
        },
        refl,
        refl,
      )
