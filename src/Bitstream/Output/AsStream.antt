-- ===== src/Bitstream/Output/AsStream.antt =====
-- The stream keeps the promises of the interface, so that the codecs can write to it.
use kanzi_go.Bitstream.Api.{OutputBitStream}
use kanzi_go.Bitstream.Sink.{Sink}
use kanzi_go.Bitstream.Output.{BitOutput, write_bit, write_bits}
use kanzi_go.Bitstream.Output.Stream.{IsValid, contents}
use kanzi_go.Bitstream.Output.Bit.{write_bit_lem}
use kanzi_go.Bitstream.Output.Write.{write_bits_lem}
use kanzi_go.Bitstream.Output.Array.{write_array}
use kanzi_go.Bitstream.Output.Array.Whole.{write_array_lem}

abbrev pub default_output : Sink → OutputBitStream
default_output os = record {
  State = BitOutput os;
  write_bit = write_bit os;
  write_bits = write_bits os;
  write_array = write_array os;
  contents = contents os;
  IsOpen = IsValid os;
  write_bit_law =
      λ t bit v. let (t', e, x) = write_bit_lem os t bit v in (t', e, x.valid, x.appended);
  write_bits_law = λ t value count v p h.
      let (t', e, x) = write_bits_lem os t value count v p h in (t', e, x.valid, x.appended);
  write_array_law = λ t block n v b h.
      let (t', e, x) = write_array_lem os t block n v b h in (t', e, x.valid, x.appended);
}
