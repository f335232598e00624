-- ===== src/Bitstream/Input/Array.antt =====
-- `ReadArray` of v2/bitstream/DefaultInputBitStream.go. A cursor is the stream with the bytes of the slice
-- that are filled, and the number of bits that remain.
pub mod Progress
pub mod Copy
pub mod Aligned
pub mod Shift
pub mod Unaligned
pub mod Whole
use kanzi_go.Base.{
  ℕ, zero, suc, ◌+◌, ◌-◌, ◌*◌, ◌/◌, ◌%◌, ◌^◌, Bool, true, false, not, ◌&&◌, List, [], ◌∷◌, ◌++◌,
  bit_and, bit_or, shl, shr, u8, u64, ltb, leb, ◌==◌, if◌then◌else◌, length, take, drop, Exec, ok,
  panic, stuck, ◌>>=◌,
}
use kanzi_go.Bitstream.Source.{Source}
use kanzi_go.Bitstream.Output.{bytes_of_64, uint64_of}
use kanzi_go.Bitstream.Input.{BitInput, or_panic, read_from_source, pull, read_bits}

module _ (is : Source) where
  abbrev pub Cursor : Type 0
  Cursor = BitInput is × List ℕ × ℕ

  -- The two loops that read a byte at a time: until `current` is empty, or to the end. Fuel for one more than
  -- the bits is enough, here and below.
  unfoldable pub read_bytes : ℕ → (BitInput is → Bool) → BitInput is → List ℕ → ℕ → Exec Cursor
  read_bytes zero until t done remaining = stuck
  read_bytes (suc fuel) until t done remaining =
      if not (until t) && leb 8 remaining
      then (do
        (v, t') ← read_bits is t 8
        read_bytes fuel until t' (done ++ (u8 v ∷ [])) (remaining - 8))
      else ok (t, done, remaining)

  -- The buffer is copied and filled again while more than it holds is wanted.
  unfoldable pub copy_buffer : ℕ → BitInput is → List ℕ → ℕ → Exec Cursor
  copy_buffer zero t done remaining = stuck
  copy_buffer (suc fuel) t done remaining =
      let avail_bytes = t.limit - t.position in
      if ltb avail_bytes (shr remaining 3)
      then (do
        t' ← or_panic is (read_from_source is (record t { position = t.limit }))
        copy_buffer fuel t' (done ++ take avail_bytes (drop t.position t.buffer))
            (remaining - shl avail_bytes 3))
      else ok (t, done, remaining)

  -- As many whole words as there are.
  unfoldable pub copy_words : BitInput is → List ℕ → ℕ → Exec Cursor
  copy_words t done remaining =
      let r = shl (shr remaining 6) 3 in
      if ltb 0 r
      then (if leb (t.position + r) (length t.buffer)
          then ok (
            record t { position = t.position + r },
            done ++ take r (drop t.position t.buffer),
            remaining - shl r 3,
          )
          else panic)
      else ok (t, done, remaining)

  unfoldable pub read_aligned : BitInput is → ℕ → Exec Cursor
  read_aligned t remaining = do
    t1 ← (if t.avail_bits == 0 then pull is t else ok t)
    (t2, done2, remaining2) ← read_bytes (suc remaining) (λ u. u.avail_bits == 0) t1 [] remaining
    (t3, done3, remaining3) ← copy_buffer (suc (suc remaining2)) t2 done2 remaining2
    copy_words t3 done3 remaining3

  -- The lowest `a` bits of `current` and the first `64 - a` ones that are pulled.
  unfoldable pub shift_word : ℕ → BitInput is → Exec (ℕ × BitInput is)
  shift_word a t = do
    t' ← pull is t
    (if ltb t'.avail_bits (64 - a)
        then panic
        else ok (
          bit_or (u64 (shl t.current (64 - a))) (shr t'.current (t'.avail_bits - (64 - a))),
          record t' { avail_bits = t'.avail_bits - (64 - a) },
        ))

  unfoldable pub read_quads : ℕ → (a : ℕ) → BitInput is → List ℕ → ℕ → Exec Cursor
  read_quads zero a t done remaining = stuck
  read_quads (suc fuel) a t done remaining =
      if leb 256 remaining
      then (if leb t.limit (t.position + 32)
          then (do
            (val, t') ← shift_word a t
            read_quads fuel a t' (done ++ bytes_of_64 val) (remaining - 64))
          else (do
            v1 ← uint64_of (drop t.position t.buffer)
            v2 ← uint64_of (drop (t.position + 8) t.buffer)
            v3 ← uint64_of (drop (t.position + 16) t.buffer)
            v4 ← uint64_of (drop (t.position + 24) t.buffer)
            read_quads fuel a (record t { position = t.position + 32; current = v4 })
                (done
                  ++ (bytes_of_64 (bit_or (u64 (shl t.current (64 - a))) (shr v1 a))
                      ++ (bytes_of_64 (bit_or (u64 (shl v1 (64 - a))) (shr v2 a))
                          ++ (bytes_of_64 (bit_or (u64 (shl v2 (64 - a))) (shr v3 a))
                              ++ bytes_of_64 (bit_or (u64 (shl v3 (64 - a))) (shr v4 a))))))
                (remaining - 256)))
      else ok (t, done, remaining)

  unfoldable pub read_words : ℕ → (a : ℕ) → BitInput is → List ℕ → ℕ → Exec Cursor
  read_words zero a t done remaining = stuck
  read_words (suc fuel) a t done remaining =
      if leb 64 remaining
      then (do
        (val, t') ← shift_word a t
        read_words fuel a t' (done ++ bytes_of_64 val) (remaining - 64))
      else ok (t, done, remaining)

  unfoldable pub read_unaligned : BitInput is → ℕ → Exec Cursor
  read_unaligned t remaining = do
    (t1, done1, remaining1) ← read_quads (suc remaining) t.avail_bits t [] remaining
    read_words (suc remaining1) t.avail_bits t1 done1 remaining1

  -- Fewer than eight bits may be left.
  unfoldable pub read_last : BitInput is → List ℕ → ℕ → Exec (List ℕ × BitInput is)
  read_last t done remaining =
      if ltb 0 remaining
      then (do
        (v, t') ← read_bits is t remaining
        ok (done ++ (u8 (shl v (8 - remaining)) ∷ []), t'))
      else ok (done, t)

  unfoldable pub read_array : BitInput is → (count : ℕ) → Exec (List ℕ × BitInput is)
  read_array t count = if t.closed then panic else if count == 0 then ok ([], t) else (do
    (t1, done1, remaining1) ←
        (if bit_and t.avail_bits 7 == 0 then read_aligned t count else read_unaligned t count)
    (t2, done2, remaining2) ← read_bytes (suc remaining1) (λ u. false) t1 done1 remaining1
    read_last t2 done2 remaining2)
