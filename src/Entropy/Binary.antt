-- ===== src/Entropy/Binary.antt =====
-- v2/entropy/BinaryEntropyCodec.go: the arithmetic coder, for any predictor. Sums, products and shifts
-- of uint64 are written with their wrap-around.
pub mod Interval
pub mod Encode
pub mod Window
pub mod Decode
pub mod Bytes
pub mod Ending
pub mod Chunks
pub mod ReadChunks
pub mod RoundTrip
mod Tests
pub mod Stored
use kanzi_go.Base.{
  ℕ, zero, suc, ◌+◌, ◌-◌, ◌*◌, ◌/◌, ◌%◌, ◌^◌, min, Bool, true, false, List, [], ◌∷◌, ◌++◌, Option,
  none, some, bit_and, bit_or, bit_xor, shl, shr, u8, u32, u64, sub64, ltb, leb, ◌==◌,
  if◌then◌else◌, length, take, drop, replicate, Exec, ok, panic, stuck, ◌>>=◌,
}
use kanzi_go.Bitstream.Api.{OutputBitStream, InputBitStream}
use kanzi_go.Entropy.Predictor.{Predictor}
use kanzi_go.Entropy.VarInt.{write_var_int, read_var_int}

abbrev pub binary_entropy_top : ℕ
binary_entropy_top = 0x00FFFFFFFFFFFFFF

abbrev pub binary_mask_0_56 : ℕ
binary_mask_0_56 = 0x00FFFFFFFFFFFFFF

abbrev pub binary_mask_0_24 : ℕ
binary_mask_0_24 = 0x0000000000FFFFFF

abbrev pub binary_mask_0_32 : ℕ
binary_mask_0_32 = 0x00000000FFFFFFFF

abbrev pub max_block : ℕ
max_block = shl 1 30

abbrev pub max_chunk : ℕ
max_chunk = shl 1 26

-- `binary.BigEndian.PutUint32(buffer[index:], value)` panics with fewer than four bytes left.
abbrev pub word_bytes : ℕ → List ℕ
word_bytes w = u8 (shr w 24) ∷ u8 (shr w 16) ∷ u8 (shr w 8) ∷ u8 w ∷ []

unfoldable pub put_uint32 : List ℕ → ℕ → ℕ → Exec (List ℕ)
put_uint32 buffer index w =
    if leb (index + 4) (length buffer)
    then ok (take index buffer ++ (word_bytes w ++ drop (index + 4) buffer))
    else panic

-- `binary.BigEndian.Uint32` on the rest of the buffer.
abbrev pub word_of : List ℕ → Exec ℕ
word_of (a ∷ b ∷ c ∷ d ∷ rest) = ok (a * 2 ^ 24 + b * 2 ^ 16 + c * 2 ^ 8 + d)
word_of (a ∷ b ∷ c ∷ []) = panic
word_of (a ∷ b ∷ []) = panic
word_of (a ∷ []) = panic
word_of [] = panic

-- The length of a chunk for a block of `count` bytes, and that of the buffer for a chunk.
unfoldable pub chunk_length : ℕ → ℕ
chunk_length count =
    if leb max_chunk count
    then (if ltb count (8 * max_chunk) then shr count 3 else shr count 4)
    else if ltb count 64
    then 64
    else count

abbrev pub buffer_size : ℕ → ℕ
buffer_size len = len + shr len 3

abbrev pub enlarge : ℕ → List ℕ → List ℕ
enlarge size buffer = if ltb (length buffer) size then replicate size 0 else buffer

module _ (P : Predictor) where
  -- Both sides split the interval in the same way, up to `this.low`.
  abbrev pub split_offset : (low high pred : ℕ) → ℕ
  split_offset low high pred = shr (u64 (shr (sub64 high low) 4 * pred)) 8

  pub record Encoder : Type 0 where
    pub predictor : P.State
    pub low : ℕ
    pub high : ℕ
    pub disposed : Bool
    pub buffer : List ℕ
    pub index : ℕ

  unfoldable pub new_encoder : P.State → Encoder
  new_encoder s = record {
    predictor = s;
    low = 0;
    high = binary_entropy_top;
    disposed = false;
    buffer = [];
    index = 0;
  }

  unfoldable pub flush : Encoder → Exec Encoder
  flush t = do
    buffer' ← put_uint32 t.buffer t.index (u32 (shr t.high 24))
    ok (record t {
      buffer = buffer';
      index = t.index + 4;
      low = u64 (shl t.low 32);
      high = bit_or (u64 (shl t.high 32)) binary_mask_0_32;
    })

  -- `low` and `high` after the split, and the predictor.
  unfoldable pub narrow_encoder : Encoder → (bit pred : ℕ) → Encoder
  narrow_encoder t bit pred =
      let split = split_offset t.low t.high pred in
      record t {
        low = if bit == 0 then u64 (t.low + u64 (split + 1)) else t.low;
        high = if bit == 0 then t.high else u64 (t.low + split);
        predictor = P.update t.predictor bit;
      }

  unfoldable pub flush_if_settled : Encoder → Exec Encoder
  flush_if_settled t = elim (ltb (bit_xor t.low t.high) (shl 1 24)) [
    | true ↦ flush t
    | false ↦ ok t
  ]

  unfoldable pub encode_bit : Encoder → (bit pred : ℕ) → Exec Encoder
  encode_bit t bit pred = flush_if_settled (narrow_encoder t bit pred)

  -- `this.EncodeBit(bit, this.predictor.Get())`
  unfoldable pub encode_next : ℕ → Encoder → Exec Encoder
  encode_next bit t =
      encode_bit (record t { predictor = (P.get t.predictor).1 }) bit (P.get t.predictor).0

  unfoldable pub encode_byte : Encoder → ℕ → Exec Encoder
  encode_byte t val = do
    t1 ← encode_next (bit_and (shr val 7) 1) t
    t2 ← encode_next (bit_and (shr val 6) 1) t1
    t3 ← encode_next (bit_and (shr val 5) 1) t2
    t4 ← encode_next (bit_and (shr val 4) 1) t3
    t5 ← encode_next (bit_and (shr val 3) 1) t4
    t6 ← encode_next (bit_and (shr val 2) 1) t5
    t7 ← encode_next (bit_and (shr val 1) 1) t6
    encode_next (bit_and val 1) t7

  unfoldable pub encode_chunk : Encoder → List ℕ → Exec Encoder
  encode_chunk t [] = ok t
  encode_chunk t (val ∷ buf) = do t' ← encode_byte t val; encode_chunk t' buf

  module _ (out : OutputBitStream) where
    open out use {write_bits, write_array}

    -- What follows a chunk that is not the last one.
    unfoldable pub between : out.State → Encoder → List ℕ → Exec out.State
    between s t [] = ok s
    between s t (val ∷ rest) = write_bits s (bit_or t.low binary_mask_0_24) 56

    -- The loop over the chunks of the rest of the block: fuel for its length is enough.
    unfoldable pub write_chunks :
        ℕ → out.State → Encoder → (len : ℕ) → List ℕ → Exec (Encoder × out.State)
    write_chunks fuel s t len [] = ok (t, s)
    write_chunks zero s t len (val ∷ block) = stuck
    write_chunks (suc fuel) s t len (val ∷ block) = do
      let size = min len (length (val ∷ block))
      t' ← encode_chunk (record t { index = 0 }) (take size (val ∷ block))
      (s1, n) ← write_var_int out s (u32 t'.index)
      (count, s2) ← write_array s1 t'.buffer (8 * t'.index)
      s3 ← between s2 t' (drop size (val ∷ block))
      write_chunks fuel s3 t' len (drop size (val ∷ block))

    -- `none` is the error on a block that is too big.
    unfoldable pub write : out.State → Encoder → List ℕ → Exec (Option ℕ × (Encoder × out.State))
    write s t block = if ltb max_block (length block) then ok (none, (t, s)) else (do
      let len = chunk_length (length block)
      r ←
          write_chunks (length block) s (record t { buffer = enlarge (buffer_size len) t.buffer })
            len block
      ok (some (length block), r))

    unfoldable pub dispose : out.State → Encoder → Exec (Encoder × out.State)
    dispose s t = if t.disposed then ok (t, s) else (do
      s' ← write_bits s (bit_or t.low binary_mask_0_24) 56
      ok (record t { disposed = true }, s'))

  pub record Decoder : Type 0 where
    pub predictor : P.State
    pub low : ℕ
    pub high : ℕ
    pub current : ℕ
    pub buffer : List ℕ
    pub index : ℕ

  unfoldable pub new_decoder : P.State → Decoder
  new_decoder s = record {
    predictor = s;
    low = 0;
    high = binary_entropy_top;
    current = 0;
    buffer = [];
    index = 0;
  }

  unfoldable pub read_word : Decoder → Exec Decoder
  read_word t = do
    val ← word_of (drop t.index t.buffer)
    ok (record t {
      low = bit_and (u64 (shl t.low 32)) binary_mask_0_56;
      high = bit_and (bit_or (u64 (shl t.high 32)) binary_mask_0_32) binary_mask_0_56;
      current = bit_and (bit_or (u64 (shl t.current 32)) val) binary_mask_0_56;
      index = t.index + 4;
    })

  -- `-^split` is `split + 1`.
  unfoldable pub narrow_decoder : Decoder → (split bit : ℕ) → Decoder
  narrow_decoder t split bit = record t {
    low = if bit == 0 then sub64 0 (2 ^ 64 - 1 - split) else t.low;
    high = if bit == 0 then t.high else split;
    predictor = P.update t.predictor bit;
  }

  unfoldable pub read_if_settled : Decoder → Exec Decoder
  read_if_settled t = elim (ltb (bit_xor t.low t.high) (shl 1 24)) [
    | true ↦ read_word t
    | false ↦ ok t
  ]

  unfoldable pub decode_bit : Decoder → (pred : ℕ) → Exec (ℕ × Decoder)
  decode_bit t pred =
      let split = u64 (split_offset t.low t.high pred + t.low) in
      let bit = if leb t.current split then 1 else 0 in
      (do t' ← read_if_settled (narrow_decoder t split bit); ok (bit, t'))

  unfoldable pub decode_next : Decoder → Exec (ℕ × Decoder)
  decode_next t = decode_bit (record t { predictor = (P.get t.predictor).1 }) (P.get t.predictor).0

  unfoldable pub decode_byte : Decoder → Exec (ℕ × Decoder)
  decode_byte t = do
    (b7, t1) ← decode_next t
    (b6, t2) ← decode_next t1
    (b5, t3) ← decode_next t2
    (b4, t4) ← decode_next t3
    (b3, t5) ← decode_next t4
    (b2, t6) ← decode_next t5
    (b1, t7) ← decode_next t6
    (b0, t8) ← decode_next t7
    ok (
      bit_or
          (bit_or
            (bit_or
              (bit_or
                (bit_or (bit_or (bit_or (u8 (shl b7 7)) (u8 (shl b6 6))) (u8 (shl b5 5)))
                  (u8 (shl b4 4)))
                (u8 (shl b3 3)))
              (u8 (shl b2 2)))
            (u8 (shl b1 1)))
          b0,
      t8,
    )

  unfoldable pub decode_chunk : ℕ → Decoder → Exec (List ℕ × Decoder)
  decode_chunk zero t = ok ([], t)
  decode_chunk (suc n) t = do
    (val, t') ← decode_byte t
    (buf, t'') ← decode_chunk n t'
    ok (val ∷ buf, t'')

  module _ (in_ : InputBitStream) where
    open in_ use {read_bits, read_array}

    -- The bytes of a chunk go to the start of the buffer; none are read where there are none.
    unfoldable pub fill : in_.State → ℕ → List ℕ → Exec (List ℕ × in_.State)
    fill s zero buffer = ok (buffer, s)
    fill s (suc n) buffer = do
      (bytes, s') ← read_array s (8 * suc n)
      ok (bytes ++ drop (length bytes) buffer, s')

    -- The loop over the chunks; `none` is the error on a size that is too large for the buffer.
    unfoldable pub read_chunks :
        ℕ
        → in_.State
        → Decoder
        → (len : ℕ) → (left : ℕ) → List ℕ
        → Exec (Option (List ℕ) × (Decoder × in_.State))
    read_chunks fuel s t len zero done = ok (some done, (t, s))
    read_chunks zero s t len (suc left) done = stuck
    read_chunks (suc fuel) s t len (suc left) done = do
      let size = min len (suc left)
      (bytes, s1) ← read_var_int in_ s
      if ltb (u32 (buffer_size len)) bytes then ok (none, (t, s1)) else (do
        (current, s2) ← read_bits s1 56
        (buffer, s3) ← fill s2 bytes t.buffer
        (buf, t') ← decode_chunk size (record t { current = current; buffer = buffer; index = 0 })
        read_chunks fuel s3 t' len (suc left - size) (done ++ buf))

    unfoldable pub read :
        in_.State → Decoder → (count : ℕ) → Exec (Option (List ℕ) × (Decoder × in_.State))
    read s t count =
        if ltb max_block count
        then ok (none, (t, s))
        else let len = chunk_length count in
          read_chunks count s (record t { buffer = enlarge (buffer_size len) t.buffer }) len count
            []
