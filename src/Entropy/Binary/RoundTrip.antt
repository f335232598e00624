-- ===== src/Entropy/Binary/RoundTrip.antt =====
-- A block through the encoder and back through the decoder.
use kanzi_go.Base.Bytes.{replicate-IsBytes}
use kanzi_go.Base.{
  ℕ, ◌^◌, ◌<◌, ◌≤◌, ◌≡◌, refl, ◌∙◌, arith, true, false, List, [], ◌++◌, length, IsBytes,
  length-replicate, ltb, bit_or, Option, some, Exec, ok,
}
use kanzi_go.Bitstream.Api.{OutputBitStream, InputBitStream}
use kanzi_go.Entropy.Predictor.{Predictor}
use kanzi_go.Entropy.Binary.{
  Encoder, Decoder, new_encoder, new_decoder, write, dispose, read, write_chunks, read_chunks,
  chunk_length, buffer_size, enlarge, max_block, binary_mask_0_24, binary_entropy_top,
}
use kanzi_go.Entropy.Binary.Interval.{Interval, IsOpen}
use kanzi_go.Entropy.Binary.Encode.{Matches}
use kanzi_go.Entropy.Binary.Chunks.{block_code, CodeFits, write_chunks_lem, ending_lem}
use kanzi_go.Entropy.Binary.ReadChunks.{Agrees, read_chunks_lem}

abbrev pub whole : Interval
whole = record { low = 0; high = binary_entropy_top }

whole-IsOpen : IsOpen whole
whole-IsOpen = record {
  nonempty = omega arith;
  bound = omega arith;
  unsettled = λ e. absurd (omega arith);
}

chunk_length_bound :
    (count : ℕ)
    → count ≤ 2 ^ 30
    → (0 < chunk_length count) × (buffer_size (chunk_length count) < 2 ^ 28)
unfolding chunk_length
chunk_length_bound count h = (ground arith, ground arith)

not_too_big : (count : ℕ) → count ≤ 2 ^ 30 → ltb max_block count ≡ false
not_too_big count h = ground arith

module _ (P : Predictor) where
  -- What `Write` and `Dispose` leave on the stream for a block.
  abbrev pub stream_code : P.State → List ℕ → List ℕ
  stream_code s block = block_code P (length block) whole s (chunk_length (length block)) block

  -- The code of every chunk fits into the buffer that `Write` allocates for the block.
  abbrev pub StreamFits : P.State → List ℕ → Type 0
  StreamFits s block =
      CodeFits P (length block) (buffer_size (chunk_length (length block))) whole s
        (chunk_length (length block)) block

  module _ (out : OutputBitStream) where
    dispose_lem :
        (s : out.State) (t : Encoder P)
        → t.disposed ≡ false
        → (s' : out.State) → out.write_bits s (bit_or t.low binary_mask_0_24) 56 ≡ ok s'
        → dispose P out s t ≡ ok (record t { disposed = true }, s')
    unfolding dispose
    dispose_lem s t d s' e = rw d (rw e refl)

    started :
        (s : P.State) (size : ℕ)
        → 0 < size
        → Matches P size (record (new_encoder P s) { buffer = enlarge size [] }) whole s []
    unfolding new_encoder
    started s size h =
        let empty : ltb 0 size ≡ true = ground arith in
        record {
          top = 0;
          top_byte = omega arith;
          low_eq = omega arith;
          high_eq = omega arith;
          state_eq = refl;
          written = refl;
          index_eq = refl;
          room_eq = rw empty (length-replicate size 0);
          in_use = refl;
          bytes = rw empty (replicate-IsBytes size 0 (omega arith));
        }

    write_eq :
        (so so' : out.State) (s : P.State) (t : Encoder P) (block : List ℕ)
        → length block ≤ 2 ^ 30
        → write_chunks P out
            (length block)
            so
            (record (new_encoder P s) {
              buffer = enlarge (buffer_size (chunk_length (length block))) [];
            })
            (chunk_length (length block))
            block
          ≡ ok (t, so')
        → write P out so (new_encoder P s) block ≡ ok (some (length block), (t, so'))
    unfolding write new_encoder
    write_eq so so' s t block h e = rw (not_too_big (length block) h) (rw e refl)

    pub write_lem :
        (so : out.State) (s : P.State) (block : List ℕ)
        → out.IsOpen so
        → P.IsValid s
        → 0 < length block
        → length block ≤ 2 ^ 30
        → StreamFits s block
        → (t t' : Encoder P) × (so' so'' : out.State) × (write P out so (new_encoder P s) block
            ≡ ok (some (length block), (t, so')))
          × (dispose P out so' t ≡ ok (t', so''))
          × out.IsOpen so''
          × (out.contents so'' ≡ out.contents so ++ stream_code s block)
    write_lem so s block o v p h f =
        let (positive, small) = chunk_length_bound (length block) h in
        let size = buffer_size (chunk_length (length block)) in
        let a =
          write_chunks_lem P out (length block) size so _ whole s [] (chunk_length (length block))
            block o (started s size (omega (arith, positive))) whole-IsOpen v f small positive p
            (omega arith) in
        let (so'', e, o'', c) =
          ending_lem P out size a.state a.after a.interval a.predictor a.bytes a.still_open
            a.matches a.interval_open in
        (
          a.after,
          record a.after { disposed = true },
          a.state,
          so'',
          write_eq so a.state s a.after block h a.returns,
          dispose_lem a.state a.after a.matches.in_use so'' e,
          o'',
          c ∙ a.left,
        )

  module _ (in_ : InputBitStream) where
    read_eq :
        (si : in_.State) (s : P.State) (count : ℕ)
        (r : Exec (Option (List ℕ) × (Decoder P × in_.State)))
        → count ≤ 2 ^ 30
        → read_chunks P in_ count si
            (record (new_decoder P s) { buffer = enlarge (buffer_size (chunk_length count)) [] })
            (chunk_length count)
            count
            []
          ≡ r
        → read P in_ si (new_decoder P s) count ≡ r
    unfolding read new_decoder
    read_eq si s count r h e = rw (not_too_big count h) e

    agrees :
        (s : P.State) (buffer : List ℕ)
        → Agrees P (record (new_decoder P s) { buffer = buffer }) whole s
    unfolding new_decoder
    agrees s buffer = record { low_eq = refl; high_eq = refl; state_eq = refl }

    pub read_lem :
        (si : in_.State) (s : P.State) (block rest : List ℕ)
        → in_.IsOpen si
        → P.IsValid s
        → length block ≤ 2 ^ 30
        → IsBytes block
        → StreamFits s block
        → in_.remaining si ≡ stream_code s block ++ rest
        → (t : Decoder P) × (si' : in_.State) × (read P in_ si (new_decoder P s) (length block)
            ≡ ok (some block, (t, si')))
          × in_.IsOpen si'
          × (in_.remaining si' ≡ rest)
    read_lem si s block rest o v h b f e =
        let (positive, small) = chunk_length_bound (length block) h in
        let buffer = enlarge (buffer_size (chunk_length (length block))) [] in
        let a =
          read_chunks_lem P in_ (length block) si (record (new_decoder P s) { buffer = buffer })
            whole s (chunk_length (length block)) block [] rest o (agrees s buffer) whole-IsOpen v f
            small positive b (omega arith) e in
        (a.after, a.state, read_eq si s (length block) _ h a.returns, a.still_open, a.left)

  -- For any predictor that keeps its promises, in a valid state, and a block of 1 to 2^30 bytes the code of
  -- whose chunks fits into the encoder's buffer: a new encoder's `Write`, then `Dispose`, return and append
  -- the code of the block to an open output, and `Read` of a new decoder returns the block from an open
  -- input that starts with that code, and leaves what follows it.
  pub read-write_binary :
      (out : OutputBitStream) (in_ : InputBitStream) (s : P.State) (so : out.State) (si : in_.State)
      (block rest : List ℕ)
      → P.IsValid s
      → out.IsOpen so
      → in_.IsOpen si
      → 0 < length block
      → length block ≤ 2 ^ 30
      → IsBytes block
      → StreamFits s block
      → in_.remaining si ≡ stream_code s block ++ rest
      → ((t t' : Encoder P) × (so' so'' : out.State) × (write P out so (new_encoder P s) block
            ≡ ok (some (length block), (t, so')))
          × (dispose P out so' t ≡ ok (t', so''))
          × out.IsOpen so''
          × (out.contents so'' ≡ out.contents so ++ stream_code s block))
        × ((t : Decoder P) × (si' : in_.State) × (read P in_ si (new_decoder P s) (length block)
              ≡ ok (some block, (t, si')))
            × in_.IsOpen si'
            × (in_.remaining si' ≡ rest))
  read-write_binary out in_ s so si block rest v o io p h b f e =
      (write_lem out so s block o v p h f, read_lem in_ si s block rest io v h b f e)
