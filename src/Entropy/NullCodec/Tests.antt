-- ===== src/Entropy/NullCodec/Tests.antt =====
-- The theorem of the null codec at a concrete input.
use kanzi_go.Base.{ℕ, ◌≡◌, refl, arith, List, [], ◌∷◌, ◌++◌, ok, some, false, IsBytes}
use kanzi_go.Base.Digits.{byte_bits}
use kanzi_go.Bitstream.Reference.{reference_output, reference_input}
use kanzi_go.Bitstream.Sink.{reference_sink}
use kanzi_go.Bitstream.Source.{reference_source}
use kanzi_go.Bitstream.Output.{BitOutput, new_bit_output, close}
use kanzi_go.Bitstream.Output.AsStream.{default_output}
use kanzi_go.Bitstream.Input.{BitInput, new_bit_input}
use kanzi_go.Bitstream.Input.AsStream.{default_input}
use kanzi_go.Bitstream.File.{reference_file, as_bytes}
use kanzi_go.Entropy.NullCodec.Stored.{read-write_file}
use kanzi_go.Entropy.NullCodec.{write, read}
use kanzi_go.Entropy.NullCodec.RoundTrip.{read-write_chunks}

abbrev block : List ℕ
block = 3 ∷ 255 ∷ []

block-IsBytes : IsBytes block
block-IsBytes = (omega arith, (omega arith, tt))

read-write_chunks_example :
    ((s' : List ℕ) × (write reference_output (1 ∷ []) block ≡ ok (2, s'))
      × Unit {0}
      × (s' ≡ (1 ∷ []) ++ byte_bits block))
    × ((t' : List ℕ) × (read reference_input (byte_bits block ++ (0 ∷ [])) 2 ≡ ok ((2, block), t'))
        × Unit {0}
        × (t' ≡ 0 ∷ []))
read-write_chunks_example =
    read-write_chunks reference_output reference_input (1 ∷ []) (byte_bits block ++ (0 ∷ [])) block
      (0 ∷ []) tt tt block-IsBytes refl

read-write_file_example :
    (t t' t'' : BitOutput reference_sink) × (u u' : BitInput reference_source) × (new_bit_output
        reference_sink [] 1024
      ≡ some t)
    × (write (default_output reference_sink) t block ≡ ok (2, t'))
    × (close reference_sink t' ≡ ok (false, t''))
    × (new_bit_input reference_source (as_bytes t''.sink) 2048 ≡ some u)
    × (read (default_input reference_source) u 2 ≡ ok ((2, block), u'))
read-write_file_example =
    read-write_file reference_sink reference_source reference_file [] block 1024 2048 tt refl
      (omega arith, omega arith, omega arith) (omega arith, omega arith, omega arith) block-IsBytes
