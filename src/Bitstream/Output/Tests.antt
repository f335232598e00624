-- ===== src/Bitstream/Output/Tests.antt =====
-- A stream with a buffer of 1024 bytes: concrete runs, and the theorems at a concrete state.
use kanzi_go.Base.Bytes.{replicate-IsBytes}
use kanzi_go.Base.{
  take, ℕ, ◌*◌, ◌^◌, ◌<◌, ◌≡◌, refl, arith, true, false, [], ◌∷◌, ◌++◌, length-replicate, replicate,
  ok, panic,
}
use kanzi_go.Base.Digits.{bits, byte_bits}
use kanzi_go.Bitstream.Sink.{reference_sink}
use kanzi_go.Bitstream.Output.{BitOutput, write_bit, write_bits, close, bits_written}
use kanzi_go.Bitstream.Output.Stream.{IsValid, contents, Extends}
use kanzi_go.Bitstream.Output.Write.{write_bits_lem}
use kanzi_go.Bitstream.Output.Bit.{write_bit_lem}
use kanzi_go.Bitstream.Output.Array.{write_array}
use kanzi_go.Bitstream.Output.Array.Whole.{write_array_lem}
use kanzi_go.Bitstream.Output.Close.{close_lem}

-- Three bits are in use: 101.
abbrev three_bits : BitOutput reference_sink
three_bits = record {
  closed = false;
  written = 0;
  position = 0;
  avail_bits = 61;
  current = 5 * 2 ^ 61;
  sink = [];
  buffer = replicate 1024 0;
}

three_bits-IsValid : IsValid reference_sink three_bits
three_bits-IsValid = record {
  ready = record {
    is_open = refl;
    room = let n = length-replicate {A = ℕ} 1024 0 in omega arith;
    aligned = refl;
    sized = let n = length-replicate {A = ℕ} 1024 0 in omega arith;
    whole = let n = length-replicate {A = ℕ} 1024 0 in omega arith;
    sink_open = tt;
  };
  avail_pos = omega arith;
  avail_bound = omega arith;
  used = 5;
  current_eq = refl;
  used_bound = omega arith;
}

write_bits_lem_example :
    (t' : BitOutput reference_sink) × (write_bits reference_sink three_bits 9 64 ≡ ok t')
    × Extends reference_sink three_bits t' (bits 64 9)
write_bits_lem_example =
    write_bits_lem reference_sink three_bits 9 64 three_bits-IsValid (omega arith) (omega arith)

write_bit_lem_example :
    (t' : BitOutput reference_sink) × (write_bit reference_sink three_bits 3 ≡ ok t')
    × Extends reference_sink three_bits t' (1 ∷ [])
write_bit_lem_example = write_bit_lem reference_sink three_bits 3 three_bits-IsValid

close_lem_example :
    (t' : BitOutput reference_sink) × (pad : ℕ) × (close reference_sink three_bits ≡ ok (false, t'))
    × (pad < 8)
    × (byte_bits t'.sink ≡ contents reference_sink three_bits ++ replicate pad 0)
    × (bits_written reference_sink t' ≡ 3)
    × (t'.closed ≡ true)
    × (write_bit reference_sink t' 1 ≡ panic)
    × (write_bits reference_sink t' 5 7 ≡ panic)
close_lem_example = close_lem reference_sink three_bits 1 5 7 three_bits-IsValid

-- Forty bytes behind three bits: four words at once, one word, and no byte at the end.
write_array_lem_example :
    (t' : BitOutput reference_sink) × (write_array reference_sink three_bits (replicate 40 7) 320
      ≡ ok (320, t'))
    × Extends reference_sink three_bits t' (byte_bits (take 40 (replicate 40 7)))
write_array_lem_example =
    write_array_lem reference_sink three_bits (replicate 40 7) 40 three_bits-IsValid
      (replicate-IsBytes 40 7 (omega arith)) (let n = length-replicate {A = ℕ} 40 7 in omega arith)
