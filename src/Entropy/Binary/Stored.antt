-- ===== src/Entropy/Binary/Stored.antt =====
-- A block through the arithmetic coder into a file, and back from it.
use kanzi_go.Base.{
  ℕ, ◌^◌, ◌<◌, ◌≤◌, ◌≡◌, ap, ◌∙◌, false, List, [], ◌++◌, some, ok, length, IsBytes, replicate,
}
use kanzi_go.Base.Digits.{byte_bits}
use kanzi_go.Bitstream.Sink.{Sink}
use kanzi_go.Bitstream.Source.{Source}
use kanzi_go.Bitstream.Output.{BitOutput, new_bit_output, close}
use kanzi_go.Bitstream.Output.Start.{new_bit_output_lem}
use kanzi_go.Bitstream.Output.AsStream.{default_output}
use kanzi_go.Bitstream.Input.{BitInput, new_bit_input}
use kanzi_go.Bitstream.Input.AsStream.{default_input}
use kanzi_go.Bitstream.File.{StoredFile, IsBufferSize, reopen_lem}
use kanzi_go.Entropy.Predictor.{Predictor}
use kanzi_go.Entropy.Binary.{Encoder, Decoder, new_encoder, new_decoder, write, dispose, read}
use kanzi_go.Entropy.Binary.RoundTrip.{stream_code, StreamFits, write_lem, read_lem}

module _ (P : Predictor) (os : Sink) (is : Source) (file : StoredFile os is) where
  -- For any predictor that keeps its promises, in a valid state, a file that is opened with the bits that were
  -- written to it, an empty open sink, buffers of sizes that the constructors take, and a block of 1 to 2^30
  -- bytes the code of whose chunks fits into the encoder's buffer: a new encoder's `Write` and `Dispose` on a
  -- new output stream, then its `Close`, return without an error, and a new decoder's `Read` from a new input
  -- stream on the file returns the block.
  pub read-write_coded_file :
      (s : P.State) (so : os.State) (block : List ℕ) (out_size in_size : ℕ)
      → P.IsValid s
      → os.IsOpen so
      → os.received so ≡ []
      → IsBufferSize out_size
      → IsBufferSize in_size
      → 0 < length block
      → length block ≤ 2 ^ 30
      → IsBytes block
      → StreamFits P s block
      → (t0 t1 t2 t3 : BitOutput os) × (e e' : Encoder P) × (u u' : BitInput is) × (d : Decoder P)
        × (new_bit_output os so out_size ≡ some t0)
        × (write P (default_output os) t0 (new_encoder P s) block
            ≡ ok (some (length block), (e, t1)))
        × (dispose P (default_output os) t1 e ≡ ok (e', t2))
        × (close os t2 ≡ ok (false, t3))
        × (new_bit_input is (file.reopen t3.sink) in_size ≡ some u)
        × (read P (default_input is) u (new_decoder P s) (length block) ≡ ok (some block, (d, u')))
  read-write_coded_file s so block out_size in_size v o e (a, b, c) h p l i fits =
      let (t0, n, w, k) = new_bit_output_lem os so out_size o a b c in
      let (x, x', t1, t2, r1, r2, w', k') =
        write_lem P (default_output os) t0 s block w v p l fits in
      let f = reopen_lem os is file t2 in_size w' h in
      let code = stream_code P s block in
      let start =
        f.same_bits
        ∙ ap (λ y. y ++ replicate f.pad 0) (k' ∙ ap (λ y. y ++ code) (k ∙ ap byte_bits e)) in
      let (d, u', r, y, z) =
        read_lem P (default_input is) f.input s block (replicate f.pad 0) f.readable v l i fits
          start in
      (t0, t1, t2, f.closed, x, x', f.input, u', d, n, r1, r2, f.close_returns, f.open_returns, r)
