-- ===== src/Entropy/NullCodec/Stored.antt =====
-- A block through the null encoder into a file, and back from it.
use kanzi_go.Base.{ℕ, ◌≡◌, ap, ◌∙◌, false, List, [], ◌++◌, some, ok, length, IsBytes, replicate}
use kanzi_go.Base.Digits.{byte_bits}
use kanzi_go.Bitstream.Sink.{Sink}
use kanzi_go.Bitstream.Source.{Source}
use kanzi_go.Bitstream.Output.{BitOutput, new_bit_output, close}
use kanzi_go.Bitstream.Output.Start.{new_bit_output_lem}
use kanzi_go.Bitstream.Output.AsStream.{default_output}
use kanzi_go.Bitstream.Input.{BitInput, new_bit_input}
use kanzi_go.Bitstream.Input.AsStream.{default_input}
use kanzi_go.Bitstream.File.{StoredFile, IsBufferSize, reopen_lem}
use kanzi_go.Entropy.NullCodec.{write, read}
use kanzi_go.Entropy.NullCodec.RoundTrip.{write_whole, read_whole}

module _ (os : Sink) (is : Source) (file : StoredFile os is) where
  -- For a file that is opened with the bits that were written to it, an empty open sink, buffers of sizes that
  -- the constructors take, and a block of bytes of any length: `Write` to a new output stream, then `Close`,
  -- return without an error, and `Read` from a new input stream on the file returns the block.
  pub read-write_file :
      (so : os.State) (block : List ℕ) (out_size in_size : ℕ)
      → os.IsOpen so
      → os.received so ≡ []
      → IsBufferSize out_size
      → IsBufferSize in_size
      → IsBytes block
      → (t t' t'' : BitOutput os) × (u u' : BitInput is) × (new_bit_output os so out_size ≡ some t)
        × (write (default_output os) t block ≡ ok (length block, t'))
        × (close os t' ≡ ok (false, t''))
        × (new_bit_input is (file.reopen t''.sink) in_size ≡ some u)
        × (read (default_input is) u (length block) ≡ ok ((length block, block), u'))
  read-write_file so block out_size in_size o e (a, b, c) h i =
      let (t, n, v, k) = new_bit_output_lem os so out_size o a b c in
      let (t', w, v', k') = write_whole (default_output os) t block v i in
      let f = reopen_lem os is file t' in_size v' h in
      let start =
        f.same_bits
        ∙ ap (λ x. x ++ replicate f.pad 0)
            (k' ∙ ap (λ x. x ++ byte_bits block) (k ∙ ap byte_bits e)) in
      let (u', r, x, y) =
        read_whole (default_input is) f.input block (replicate f.pad 0) f.readable i start in
      (t, t', f.closed, f.input, u', n, w, f.close_returns, f.open_returns, r)
