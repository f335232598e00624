-- ===== src/Entropy/Binary/Chunks.antt =====
-- The code of a block, chunk after chunk, and the loop that writes it.
use kanzi_go.Base.{
  ℕ, zero, suc, ◌*◌, ◌^◌, ◌<◌, ◌≤◌, ◌≡◌, refl, sym, ap, ap₂, ◌∙◌, arith, min, List, [], ◌∷◌, ◌++◌,
  length, bit_or, u32, append_assoc, append-nil, take, drop, length-drop, Exec, ok, ◌>>=◌,
}
use kanzi_go.Base.Digits.{byte_bits}
use kanzi_go.Bitstream.Api.{OutputBitStream}
use kanzi_go.Entropy.Predictor.{Predictor}
use kanzi_go.Entropy.VarInt.{write_var_int}
use kanzi_go.Entropy.VarInt.Format.{var_int_bytes}
use kanzi_go.Entropy.VarInt.Write.{write_var_int_lem}
use kanzi_go.Entropy.Binary.{Encoder, encode_chunk, between, write_chunks, binary_mask_0_24}
use kanzi_go.Entropy.Binary.Interval.{
  Interval, IsOpen, code, final, final_state, final-IsOpen, final_state-IsValid, byte_bits-AreBits,
}
use kanzi_go.Entropy.Binary.Encode.{Matches, encode_all_lem, encode_chunk_lem}
use kanzi_go.Entropy.Binary.Ending.{seven_bytes, ending, bits-ending}

module _ (P : Predictor) where
  -- The bytes of a chunk's code, and what they leave.
  abbrev pub chunk_code : Interval → P.State → List ℕ → List ℕ
  chunk_code i s buf = code P i s (byte_bits buf)

  abbrev pub chunk_final : Interval → P.State → List ℕ → Interval
  chunk_final i s buf = final P i s (byte_bits buf)

  abbrev pub chunk_state : P.State → List ℕ → P.State
  chunk_state s buf = final_state P s (byte_bits buf)

  -- Size, code and 56 more bits for each chunk of at most `len` bytes.
  unfoldable pub block_code : ℕ → Interval → P.State → (len : ℕ) → List ℕ → List ℕ
  block_code fuel i s len [] = []
  block_code zero i s len (val ∷ block) = []
  block_code (suc fuel) i s len (val ∷ block) =
      let size = min len (length (val ∷ block)) in
      let buf = take size (val ∷ block) in
      byte_bits (var_int_bytes (length (chunk_code i s buf)))
      ++ (byte_bits (chunk_code i s buf)
          ++ (byte_bits (seven_bytes (ending (chunk_final i s buf)))
              ++ block_code fuel (chunk_final i s buf) (chunk_state s buf) len
                  (drop size (val ∷ block))))

  -- The code of each chunk fits into a buffer of `room` bytes.
  unfoldable pub CodeFits : ℕ → (room : ℕ) → Interval → P.State → (len : ℕ) → List ℕ → Type 0
  CodeFits fuel room i s len [] = Unit {0}
  CodeFits zero room i s len (val ∷ block) = Unit {0}
  CodeFits (suc fuel) room i s len (val ∷ block) =
      let size = min len (length (val ∷ block)) in
      let buf = take size (val ∷ block) in
      (length (chunk_code i s buf) ≤ room)
      × CodeFits fuel room (chunk_final i s buf) (chunk_state s buf) len (drop size (val ∷ block))

  from_start :
      (room : ℕ) (t : Encoder P) (i : Interval) (s : P.State) (out : List ℕ)
      → Matches P room t i s out
      → Matches P room (record t { index = 0 }) i s []
  from_start room t i s out m = record {
    top = m.top;
    top_byte = m.top_byte;
    low_eq = m.low_eq;
    high_eq = m.high_eq;
    state_eq = m.state_eq;
    written = refl;
    index_eq = refl;
    room_eq = m.room_eq;
    in_use = m.in_use;
    bytes = m.bytes;
  }

  -- The encoder at the end of a chunk.
  record Chunk (room : ℕ) (t : Encoder P) (i : Interval) (s : P.State) (buf : List ℕ) : Type 0 where
    after : Encoder P
    returns : encode_chunk P (record t { index = 0 }) buf ≡ ok after
    matches : Matches P room after (chunk_final i s buf) (chunk_state s buf) (chunk_code i s buf)

  chunk_lem :
      (room : ℕ) (t : Encoder P) (i : Interval) (s : P.State) (out buf : List ℕ)
      → Matches P room t i s out
      → IsOpen i
      → P.IsValid s
      → length (chunk_code i s buf) ≤ room
      → Chunk room t i s buf
  chunk_lem room t i s out buf m o v h =
      let (t', e, m') =
        encode_all_lem P room (byte_bits buf) (record t { index = 0 }) i s []
          (from_start room t i s out m) o v (byte_bits-AreBits P buf) (omega arith) in
      record { after = t'; returns = encode_chunk_lem P buf _ ∙ e; matches = m' }

  module _ (out : OutputBitStream) where
    open out use {contents, write_bits_law, write_array_law}

    -- The size and the code of a chunk.
    record Stored (room : ℕ) (s : out.State) (t : Encoder P) (w : List ℕ) : Type 0 where
      n : ℕ
      s1 : out.State
      size_written : write_var_int out s (u32 t.index) ≡ ok (s1, n)
      s2 : out.State
      code_written : out.write_array s1 t.buffer (8 * t.index) ≡ ok (8 * t.index, s2)
      still_open : out.IsOpen s2
      left : contents s2 ≡ contents s ++ (byte_bits (var_int_bytes (length w)) ++ byte_bits w)

    store_lem :
        (room : ℕ) (s : out.State) (t : Encoder P) (i : Interval) (q : P.State) (w : List ℕ)
        → out.IsOpen s
        → Matches P room t i q w
        → length w ≤ room
        → room < 2 ^ 28
        → Stored room s t w
    store_lem room s t i q w o m h k =
        let index_eq = m.index_eq in
        let room_eq = m.room_eq in
        let size : u32 t.index ≡ length w = omega (arith, index_eq) in
        let (s1, n, e1, o1, c1, l, five) = write_var_int_lem out s (length w) o (omega arith) in
        let (s2, e2, o2, c2) =
          write_array_law s1 t.buffer t.index o1 m.bytes (omega (arith, index_eq, room_eq)) in
        record {
          n = n;
          s1 = s1;
          size_written = ap (write_var_int out s) size ∙ e1;
          s2 = s2;
          code_written = e2;
          still_open = o2;
          left =
              c2
              ∙ ap₂ (λ a b. a ++ byte_bits b) c1 m.written
              ∙ append_assoc (contents s) (byte_bits (var_int_bytes (length w))) (byte_bits w);
        }

    -- 56 bits of `low`, between two chunks or at the end.
    pub ending_lem :
        (room : ℕ) (s : out.State) (t : Encoder P) (i : Interval) (q : P.State) (w : List ℕ)
        → out.IsOpen s
        → Matches P room t i q w
        → IsOpen i
        → (s' : out.State) × (out.write_bits s (bit_or t.low binary_mask_0_24) 56 ≡ ok s')
          × out.IsOpen s'
          × (contents s' ≡ contents s ++ byte_bits (seven_bytes (ending i)))
    ending_lem room s t i q w o m io =
        let n = io.nonempty in
        let b = io.bound in
        let (s', e, o', c) =
          write_bits_law s (bit_or t.low binary_mask_0_24) 56 o (omega arith) (omega arith) in
        (
          s',
          e,
          o',
          c ∙ ap (λ x. contents s ++ x) (bits-ending m.top i t.low m.low_eq (omega arith)),
        )

    -- A loop over the chunks ended: `expected` is there but for the 56 bits that `Dispose` writes.
    pub record Wrote (room : ℕ) (expected : List ℕ) (r : Exec (Encoder P × out.State))
        : Type 0 where
      pub after : Encoder P
      pub state : out.State
      pub returns : r ≡ ok (after, state)
      pub still_open : out.IsOpen state
      pub interval : Interval
      pub predictor : P.State
      pub bytes : List ℕ
      pub matches : Matches P room after interval predictor bytes
      pub interval_open : IsOpen interval
      pub left : contents state ++ byte_bits (seven_bytes (ending interval)) ≡ expected

    -- What follows a chunk: nothing, or 56 bits and the other chunks, which `more` writes.
    continue_lem :
        (fuel room : ℕ) (s : out.State) (t : Encoder P) (i : Interval) (q : P.State) (w : List ℕ)
        (len : ℕ) (rest : List ℕ)
        → out.IsOpen s
        → Matches P room t i q w
        → IsOpen i
        → ((s' : out.State)
            → 0 < length rest
            → out.IsOpen s'
            → Wrote room
                (contents s' ++ block_code fuel i q len rest)
                (write_chunks P out fuel s' t len rest))
        → Wrote room
            (contents s ++ (byte_bits (seven_bytes (ending i)) ++ block_code fuel i q len rest))
            (between P out s t rest >>= λ s'. write_chunks P out fuel s' t len rest)
    unfolding write_chunks between block_code
    continue_lem fuel room s t i q w len [] o m io more = record {
      after = t;
      state = s;
      returns = refl;
      still_open = o;
      interval = i;
      predictor = q;
      bytes = w;
      matches = m;
      interval_open = io;
      left = ap (λ x. contents s ++ x) (sym (append-nil (byte_bits (seven_bytes (ending i)))));
    }
    continue_lem fuel room s t i q w len (val ∷ rest) o m io more =
        let (s', e, o', c) = ending_lem room s t i q w o m io in
        let a = more s' (omega arith) o' in
        record {
          after = a.after;
          state = a.state;
          returns = rw e a.returns;
          still_open = a.still_open;
          interval = a.interval;
          predictor = a.predictor;
          bytes = a.bytes;
          matches = a.matches;
          interval_open = a.interval_open;
          left =
              a.left
              ∙ ap (λ x. x ++ block_code fuel i q len (val ∷ rest)) c
              ∙ append_assoc (contents s) (byte_bits (seven_bytes (ending i)))
                  (block_code fuel i q len (val ∷ rest));
        }

    -- One round, once the chunk and its code are known.
    round_lem :
        (fuel : ℕ) (s s1 s2 : out.State) (t t' : Encoder P) (n len val : ℕ) (block : List ℕ)
        → encode_chunk P
            (record t { index = 0 })
            (take (min len (length (val ∷ block))) (val ∷ block))
          ≡ ok t'
        → write_var_int out s (u32 t'.index) ≡ ok (s1, n)
        → out.write_array s1 t'.buffer (8 * t'.index) ≡ ok (8 * t'.index, s2)
        → write_chunks P out (suc fuel) s t len (val ∷ block) ≡ (
            between P out s2 t' (drop (min len (length (val ∷ block))) (val ∷ block)) >>= λ s'.
            write_chunks P out fuel s' t' len (drop (min len (length (val ∷ block))) (val ∷ block)))
    unfolding write_chunks
    round_lem fuel s s1 s2 t t' n len val block c e f = rw c (rw e (rw f refl))

    finished :
        (room : ℕ) (l l' : List ℕ) (r r' : Exec (Encoder P × out.State))
        → r ≡ r'
        → l' ≡ l
        → Wrote room l' r'
        → Wrote room l r
    finished room l l' r r' e f a = rw e (rw (← f) a)

    regroup : (a b c d : List ℕ) → (a ++ (b ++ c)) ++ d ≡ a ++ (b ++ (c ++ d))
    regroup a b c d = append_assoc a (b ++ c) d ∙ ap (λ x. a ++ x) (append_assoc b c d)

    -- With fuel for the length of the block, all of it is written.
    pub write_chunks_lem :
        (fuel room : ℕ) (s : out.State) (t : Encoder P) (i : Interval) (q : P.State) (w : List ℕ)
        (len : ℕ) (block : List ℕ)
        → out.IsOpen s
        → Matches P room t i q w
        → IsOpen i
        → P.IsValid q
        → CodeFits fuel room i q len block
        → room < 2 ^ 28
        → 0 < len
        → 0 < length block
        → length block ≤ fuel
        → Wrote room
            (contents s ++ block_code fuel i q len block)
            (write_chunks P out fuel s t len block)
    unfolding block_code CodeFits
    write_chunks_lem fuel room s t i q w len [] o m io v h k l p f = absurd (omega arith)
    write_chunks_lem zero room s t i q w len (val ∷ block) o m io v h k l p f = absurd (omega arith)
    write_chunks_lem (suc fuel) room s t i q w len (val ∷ block) o m io v h k l p f =
        let size = min len (length (val ∷ block)) in
        let buf = take size (val ∷ block) in
        let rest = drop size (val ∷ block) in
        let c = chunk_lem room t i q w buf m io v h.0 in
        let i' = chunk_final i q buf in
        let q' = chunk_state q buf in
        let io' = final-IsOpen P i q (byte_bits buf) io v (byte_bits-AreBits P buf) in
        let v' = final_state-IsValid P q (byte_bits buf) v (byte_bits-AreBits P buf) in
        let d = store_lem room s c.after i' q' (chunk_code i q buf) o c.matches h.0 k in
        let shorter : length rest ≤ fuel = omega (arith, length-drop size (val ∷ block)) in
        let a =
          continue_lem fuel room d.s2 c.after i' q' (chunk_code i q buf) len rest d.still_open
            c.matches io'
            λ s' ne o'.
              write_chunks_lem fuel room s' c.after i' q' (chunk_code i q buf) len rest o' c.matches
                io' v' h.1 k l ne shorter in
        finished room _ _ _ _
          (round_lem fuel s d.s1 d.s2 t c.after d.n len val block c.returns d.size_written
            d.code_written)
          (ap (λ x. x ++ (byte_bits (seven_bytes (ending i')) ++ block_code fuel i' q' len rest))
              d.left
            ∙ regroup (contents s) (byte_bits (var_int_bytes (length (chunk_code i q buf))))
                (byte_bits (chunk_code i q buf)) _)
          a
