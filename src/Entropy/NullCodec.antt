-- ===== src/Entropy/NullCodec.antt =====
-- v2/entropy/NullEntropyCodec.go: the codec that writes and reads the bytes themselves, in chunks of at
-- most 2^23 bytes, since the streams count bits.
pub mod RoundTrip
mod Tests
pub mod Stored
use kanzi_go.Base.{
  ℕ, zero, suc, ◌+◌, ◌-◌, ◌*◌, ◌^◌, List, [], ◌∷◌, ◌++◌, shl, shr, ltb, if◌then◌else◌, length, drop,
  Exec, ok, stuck, ◌>>=◌,
}
use kanzi_go.Bitstream.Api.{OutputBitStream, InputBitStream}

abbrev pub chunk_size : ℕ → ℕ
chunk_size count = if ltb (shl 1 23) count then shl 1 23 else count

module _ (out : OutputBitStream) where
  open out use {State, write_array}

  -- The loop of `Write`, on `block[idx:]`. Each round takes a byte or more: fuel for the length is enough.
  write_chunks : ℕ → State → List ℕ → ℕ → Exec (ℕ × State)
  write_chunks fuel s [] res = ok (res, s)
  write_chunks zero s (b ∷ block) res = stuck
  write_chunks (suc fuel) s (b ∷ block) res = do
    let size = chunk_size (length (b ∷ block))
    (n, s') ← write_array s (b ∷ block) (8 * size)
    write_chunks fuel s' (drop size (b ∷ block)) (res + shr n 3)

  unfoldable pub write : State → List ℕ → Exec (ℕ × State)
  unfolding write_chunks
  write s block = write_chunks (length block) s block 0

module _ (in_ : InputBitStream) where
  open in_ use {State, read_array}

  -- The loop of `Read` on a block of `count` bytes, of which `done` are those before `block[idx:]`.
  read_chunks : ℕ → State → ℕ → ℕ → List ℕ → Exec ((ℕ × List ℕ) × State)
  read_chunks fuel s zero res done = ok ((res, done), s)
  read_chunks zero s (suc count) res done = stuck
  read_chunks (suc fuel) s (suc count) res done = do
    let size = chunk_size (suc count)
    (bytes, s') ← read_array s (8 * size)
    read_chunks fuel s' (suc count - size) (res + shr (8 * length bytes) 3) (done ++ bytes)

  -- With the number of bytes read, and the block.
  unfoldable pub read : State → ℕ → Exec ((ℕ × List ℕ) × State)
  unfolding read_chunks
  read s count = read_chunks count s count 0 []
