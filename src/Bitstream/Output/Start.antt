-- ===== src/Bitstream/Output/Start.antt =====
-- A new stream.
use kanzi_go.Base.{
  ℕ, ◌%◌, ◌^◌, ◌≤◌, ◌≡◌, refl, ◌∙◌, arith, false, not, [], ◌++◌, ltb, shl, bit_and, ◌==◌, replicate,
  length-replicate, append-nil, some,
}
use kanzi_go.Base.Masks.{and_mask}
use kanzi_go.Base.Digits.{bits, byte_bits}
use kanzi_go.Bitstream.Sink.{Sink}
use kanzi_go.Bitstream.Output.{BitOutput, new_bit_output}
use kanzi_go.Bitstream.Output.Stream.{IsValid, contents}

module _ (os : Sink) where
  abbrev fresh : os.State → ℕ → BitOutput os
  fresh s size = record {
    closed = false;
    written = 0;
    position = 0;
    avail_bits = 64;
    current = 0;
    sink = s;
    buffer = replicate size 0;
  }

  -- For an open sink and a buffer of 1024 to 2^29 bytes, a multiple of eight, the constructor returns a valid
  -- stream on which no bit is written.
  pub new_bit_output_lem :
      (s : os.State) (size : ℕ)
      → os.IsOpen s
      → 1024 ≤ size
      → size ≤ 2 ^ 29
      → size % 8 ≡ 0
      → (t : BitOutput os) × (new_bit_output os s size ≡ some t)
        × IsValid os t
        × (contents os t ≡ byte_bits (os.received s))
  unfolding new_bit_output bits
  new_bit_output_lem s size o l h e =
      let large : ltb size 1024 ≡ false = ground arith in
      let small : ltb (shl 1 29) size ≡ false = ground arith in
      let eighth : not (bit_and size 7 == 0) ≡ false = let m = and_mask 3 size in ground arith in
      let n = length-replicate {A = ℕ} size 0 in
      (
        fresh s size,
        rw (large, small, eighth) refl,
        record {
          ready = record {
            is_open = refl;
            room = omega (arith, n);
            aligned = refl;
            sized = omega (arith, n);
            whole = omega (arith, n);
            sink_open = o;
          };
          avail_pos = omega arith;
          avail_bound = omega arith;
          used = 0;
          current_eq = refl;
          used_bound = omega arith;
        },
        append-nil (byte_bits (os.received s) ++ []) ∙ append-nil (byte_bits (os.received s)),
      )
