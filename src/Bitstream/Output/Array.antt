-- ===== src/Bitstream/Output/Array.antt =====
-- `WriteArray` of v2/bitstream/DefaultOutputBitStream.go. A cursor is the stream with the rest of the slice,
-- from `start` on, and the number of bits of it that remain.
pub mod Progress
pub mod Copy
pub mod Aligned
pub mod Shift
pub mod Quads
pub mod Whole
use kanzi_go.Base.{
  ℕ, zero, suc, ◌+◌, ◌-◌, ◌*◌, ◌/◌, ◌%◌, ◌^◌, min, Bool, true, false, not, ◌&&◌, List, [], ◌∷◌,
  ◌++◌, Option, none, some, bit_and, bit_or, shl, shr, u8, u64, ltb, leb, ◌==◌, if◌then◌else◌,
  length, take, drop, Exec, ok, panic, stuck, ◌>>=◌,
}
use kanzi_go.Bitstream.Sink.{Sink}
use kanzi_go.Bitstream.Output.{
  BitOutput, write_bits, push, flush_or_panic, put_uint64, uint64_of, copy_at,
}

module _ (os : Sink) where
  abbrev pub Cursor : Type 0
  Cursor = BitOutput os × List ℕ × ℕ

  -- The two loops that write a byte at a time: until `current` is empty, or to the end.
  unfoldable pub write_bytes : (BitOutput os → Bool) → BitOutput os → List ℕ → ℕ → Exec Cursor
  write_bytes until t [] remaining =
      if not (until t) && leb 8 remaining then panic else ok (t, [], remaining)
  write_bytes until t (b ∷ bits) remaining =
      if not (until t) && leb 8 remaining
      then (do t' ← write_bits os t b 8; write_bytes until t' bits (remaining - 8))
      else ok (t, b ∷ bits, remaining)

  -- The buffer is filled and flushed as often as possible; fuel for two more than the bytes is enough.
  unfoldable pub copy_blocks : ℕ → BitOutput os → List ℕ → ℕ → Exec Cursor
  copy_blocks zero t bits remaining = stuck
  copy_blocks (suc fuel) t bits remaining =
      let max_pos = length t.buffer - 8 in
      let n = max_pos - t.position in
      if leb max_pos (shr remaining 3 + t.position)
      then (if leb t.position max_pos && leb n (length bits)
          then (do
            t' ← flush_or_panic os (record t {
              buffer = copy_at t.buffer t.position (take n bits);
              position = max_pos;
            })
            copy_blocks fuel t' (drop n bits) (remaining - shl n 3))
          else panic)
      else ok (t, bits, remaining)

  -- As many whole words as there are.
  unfoldable pub copy_words : BitOutput os → List ℕ → ℕ → Exec Cursor
  copy_words t bits remaining =
      let r = shl (shr remaining 6) 3 in
      if ltb 0 r
      then (if leb r (length bits)
          then ok (
            record t {
              buffer = copy_at t.buffer t.position (take r bits);
              position = t.position + r;
            },
            drop r bits,
            remaining - shl r 3,
          )
          else panic)
      else ok (t, bits, remaining)

  unfoldable pub write_aligned : BitOutput os → List ℕ → ℕ → Exec Cursor
  write_aligned t bits remaining = do
    (t1, bits1, remaining1) ← write_bytes (λ u. u.avail_bits == 64) t bits remaining
    (t2, bits2, remaining2) ← copy_blocks (suc (suc (length bits1))) t1 bits1 remaining1
    copy_words t2 bits2 remaining2

  -- `a` is `availBits` before the loops.
  unfoldable pub flush_quad : BitOutput os → Exec (BitOutput os)
  flush_quad t = if leb (length t.buffer) (t.position + 32) then flush_or_panic os t else ok t

  unfoldable pub write_quads : ℕ → (a : ℕ) → BitOutput os → List ℕ → ℕ → Exec Cursor
  write_quads zero a t bits remaining = stuck
  write_quads (suc fuel) a t bits remaining =
      if leb 256 remaining
      then (do
        val1 ← uint64_of bits
        val2 ← uint64_of (drop 8 bits)
        val3 ← uint64_of (drop 16 bits)
        val4 ← uint64_of (drop 24 bits)
        t1 ← flush_quad (record t { current = bit_or t.current (shr val1 (64 - a)) })
        b1 ← put_uint64 t1.buffer t1.position t1.current
        b2 ← put_uint64 b1 (t1.position + 8) (bit_or (u64 (shl val1 a)) (shr val2 (64 - a)))
        b3 ← put_uint64 b2 (t1.position + 16) (bit_or (u64 (shl val2 a)) (shr val3 (64 - a)))
        b4 ← put_uint64 b3 (t1.position + 24) (bit_or (u64 (shl val3 a)) (shr val4 (64 - a)))
        write_quads fuel a
            (record t1 {
              buffer = b4;
              current = u64 (shl val4 a);
              avail_bits = 64;
              position = t1.position + 32;
            })
            (drop 32 bits) (remaining - 256))
      else ok (t, bits, remaining)

  unfoldable pub write_words : ℕ → (a : ℕ) → BitOutput os → List ℕ → ℕ → Exec Cursor
  write_words zero a t bits remaining = stuck
  write_words (suc fuel) a t bits remaining =
      if leb 64 remaining
      then (do
        val ← uint64_of bits
        t' ← push os t (bit_or t.current (shr val (64 - a)))
        write_words fuel a (record t' { avail_bits = 64; current = u64 (shl val a) }) (drop 8 bits)
            (remaining - 64))
      else ok (t, bits, remaining)

  -- Fuel for one more than the bits is enough.
  unfoldable pub write_unaligned : BitOutput os → List ℕ → ℕ → Exec Cursor
  write_unaligned t bits remaining =
      if leb 64 remaining
      then (do
        (t1, bits1, remaining1) ← write_quads (suc remaining) t.avail_bits t bits remaining
        (t2, bits2, remaining2) ← write_words (suc remaining1) t.avail_bits t1 bits1 remaining1
        ok (record t2 { avail_bits = t.avail_bits }, bits2, remaining2))
      else ok (t, bits, remaining)

  -- Fewer than eight bits may be left.
  unfoldable pub write_last : BitOutput os → List ℕ → ℕ → Exec (BitOutput os)
  write_last t bits remaining =
      if ltb 0 remaining
      then (do val ← uint64_of bits; write_bits os t (shr val (64 - remaining)) remaining)
      else ok t

  unfoldable pub write_array : BitOutput os → List ℕ → (count : ℕ) → Exec (ℕ × BitOutput os)
  write_array t bits count =
      if t.closed then panic else if ltb (shl (length bits) 3) count then panic else (do
        (t1, bits1, remaining1) ←
            (if bit_and t.avail_bits 7 == 0
              then write_aligned t bits count
              else write_unaligned t bits count)
        (t2, bits2, remaining2) ← write_bytes (λ u. false) t1 bits1 remaining1
        t3 ← write_last t2 bits2 remaining2
        ok (count, t3))
