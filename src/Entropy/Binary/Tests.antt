-- ===== src/Entropy/Binary/Tests.antt =====
-- Concrete runs with the CM predictor, and the round trip at a concrete block.
use kanzi_go.Base.{ℕ, ◌≡◌, refl, ap, arith, List, [], ◌∷◌, ◌++◌, length, none, some, ok, false}
use kanzi_go.Bitstream.Reference.{reference_output, reference_input}
use kanzi_go.Bitstream.Sink.{reference_sink}
use kanzi_go.Bitstream.Source.{reference_source}
use kanzi_go.Bitstream.Output.{BitOutput, new_bit_output, close}
use kanzi_go.Bitstream.Output.AsStream.{default_output}
use kanzi_go.Bitstream.Input.{BitInput, new_bit_input}
use kanzi_go.Bitstream.Input.AsStream.{default_input}
use kanzi_go.Bitstream.File.{reference_file, as_bytes}
use kanzi_go.Entropy.Binary.Stored.{read-write_coded_file}
use kanzi_go.Entropy.Cm.{
  new_cm_predictor, update_predictor, next_context, with_row, adapt1, adapt2, decay, grow,
}
use kanzi_go.Entropy.Binary.Chunks.{CodeFits, chunk_code}
use kanzi_go.Entropy.Binary.{chunk_length}
use kanzi_go.Entropy.Cm.Bounds.{cm, new_cm_predictor-IsValid}
use kanzi_go.Entropy.Binary.{Encoder, Decoder, write, dispose, read, new_encoder, new_decoder}
use kanzi_go.Entropy.Binary.RoundTrip.{stream_code, StreamFits, whole, read-write_binary}
use kanzi_go.Entropy.Binary.Interval.{code, emitted, narrow, settle}
use kanzi_go.Base.Digits.{bits}
use kanzi_go.Base.Arrays.{update}

abbrev five_bytes : List ℕ
five_bytes = 200 ∷ 17 ∷ 3 ∷ 255 ∷ 0 ∷ []

unfoldable start : cm.State
unfolding cm
start = new_cm_predictor none

-- Five bytes of which a word is out before the last 56 bits.
code_of_five : chunk_code cm whole start five_bytes ≡ 62 ∷ 128 ∷ 123 ∷ 76 ∷ []
unfolding start cm new_cm_predictor code bits emitted narrow settle update_predictor next_context
    with_row adapt1 adapt2 decay grow update
code_of_five = refl

five_bytes-StreamFits : StreamFits cm start five_bytes
unfolding CodeFits chunk_length
five_bytes-StreamFits = (omega (arith, ap length code_of_five), tt)

start-IsValid : cm.IsValid start
unfolding start cm new_cm_predictor
start-IsValid = (new_cm_predictor-IsValid none, refl)

abbrev on_stream : List ℕ
on_stream = stream_code cm start five_bytes

read-write_binary_example :
    ((t t' : Encoder cm) × (so' so'' : List ℕ) × (write cm reference_output []
          (new_encoder cm start)
          five_bytes
        ≡ ok (some 5, (t, so')))
      × (dispose cm reference_output so' t ≡ ok (t', so''))
      × Unit {0}
      × (so'' ≡ on_stream))
    × ((t : Decoder cm) × (si' : List ℕ) × (read cm reference_input
            (on_stream ++ (1 ∷ []))
            (new_decoder cm start)
            5
          ≡ ok (some five_bytes, (t, si')))
        × Unit {0}
        × (si' ≡ 1 ∷ []))
read-write_binary_example =
    read-write_binary cm reference_output reference_input start [] (on_stream ++ (1 ∷ []))
      five_bytes (1 ∷ []) start-IsValid tt tt (omega arith) (omega arith)
      (omega arith, (omega arith, (omega arith, (omega arith, (omega arith, tt)))))
      five_bytes-StreamFits refl

read-write_coded_file_example :
    (t0 t1 t2 t3 : BitOutput reference_sink) × (e e' : Encoder cm) × (u u' : BitInput
      reference_source)
    × (d : Decoder cm) × (new_bit_output reference_sink [] 1024 ≡ some t0)
    × (write cm (default_output reference_sink) t0 (new_encoder cm start) five_bytes
        ≡ ok (some 5, (e, t1)))
    × (dispose cm (default_output reference_sink) t1 e ≡ ok (e', t2))
    × (close reference_sink t2 ≡ ok (false, t3))
    × (new_bit_input reference_source (as_bytes t3.sink) 1024 ≡ some u)
    × (read cm (default_input reference_source) u (new_decoder cm start) 5
        ≡ ok (some five_bytes, (d, u')))
read-write_coded_file_example =
    read-write_coded_file cm reference_sink reference_source reference_file start [] five_bytes 1024
      1024 start-IsValid tt refl (omega arith, omega arith, omega arith)
      (omega arith, omega arith, omega arith) (omega arith) (omega arith)
      (omega arith, (omega arith, (omega arith, (omega arith, (omega arith, tt)))))
      five_bytes-StreamFits
