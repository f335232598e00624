-- ===== src/Bitstream/Input.antt =====
-- v2/bitstream/DefaultInputBitStream.go. `limit` is `maxPosition + 1`. The slice that `ReadArray` fills has
-- room for what it reads, and is given back. int64 is kept modulo 2^64.
pub mod Window
pub mod Gather
pub mod Pull
pub mod Refill
pub mod Read
pub mod Bit
pub mod Array
pub mod AsStream
pub mod Start
pub mod Ending
pub mod More
pub mod Close
mod Tests
use kanzi_go.Base.{
  ℕ, zero, suc, ◌+◌, ◌-◌, ◌*◌, ◌/◌, ◌%◌, ◌^◌, Bool, true, false, not, ◌&&◌, ◌||◌, List, [], ◌∷◌,
  ◌++◌, Option, none, some, bit_and, bit_or, shl, shr, u8, u64, sub64, ltb, leb, ◌==◌,
  if◌then◌else◌, length, take, drop, replicate, Exec, ok, panic, stuck, ◌>>=◌,
}
use kanzi_go.Bitstream.Source.{Source}
use kanzi_go.Bitstream.Output.{bytes_of_64, uint64_of}

-- `buffer[index]`, on the rest of the buffer from the index on.
abbrev pub byte_of : List ℕ → Exec ℕ
byte_of [] = panic
byte_of (b ∷ rest) = ok b

abbrev pub all_ones : ℕ
all_ones = 0xFFFFFFFFFFFFFFFF

module _ (is : Source) where
  pub record BitInput : Type 0 where
    pub closed : Bool
    pub bits_read : ℕ
    pub position : ℕ
    pub avail_bits : ℕ
    pub source : is.State
    pub buffer : List ℕ
    pub limit : ℕ
    pub current : ℕ

  -- `none` is the error on the size of the buffer.
  unfoldable pub new_bit_input : is.State → ℕ → Option BitInput
  new_bit_input s buffer_size =
      if ltb buffer_size 1024
      then none
      else if ltb (shl 1 29) buffer_size
      then none
      else if not (bit_and buffer_size 7 == 0)
      then none
      else some (record {
        closed = false;
        bits_read = 0;
        position = 0;
        avail_bits = 0;
        source = s;
        buffer = replicate buffer_size 0;
        limit = 0;
        current = 0;
      })

  -- After a call of the source: nothing was read, or some bytes were.
  unfoldable pub after_read : BitInput → Bool × List ℕ × is.State → Bool × BitInput
  after_read t (err, [], s) = (
    true,
    record t {
      bits_read = u64 (t.bits_read + shl t.position 3);
      position = 0;
      source = s;
      limit = 0;
    },
  )
  after_read t (err, b ∷ bytes, s) = (
    err,
    record t {
      bits_read = u64 (t.bits_read + shl t.position 3);
      position = 0;
      source = s;
      limit = length (b ∷ bytes);
      buffer = b ∷ bytes ++ drop (length (b ∷ bytes)) t.buffer;
    },
  )

  -- `this.readFromInputStream(len(this.buffer))`, with true for an error.
  unfoldable pub read_from_source : BitInput → Bool × BitInput
  read_from_source t =
      if t.closed
      then (true, t)
      else if length t.buffer == 0
      then (false, t)
      else after_read t (is.read t.source (length t.buffer))

  abbrev pub or_panic : Bool × BitInput → Exec BitInput
  or_panic (true, t) = panic
  or_panic (false, t) = ok t

  -- The bytes up to the limit, the first one shifted by `shift`: fuel of eight is enough.
  unfoldable pub gather : ℕ → BitInput → (val shift : ℕ) → Exec (ℕ × BitInput)
  gather zero t val shift = if ltb t.position t.limit then stuck else ok (val, t)
  gather (suc fuel) t val shift =
      if ltb t.position t.limit
      then (do
        b ← byte_of (drop t.position t.buffer)
        gather fuel (record t { position = t.position + 1 })
            (bit_or val (u64 (shl (bit_and b 0xFF) shift))) (sub64 shift 8))
      else ok (val, t)

  -- `pull` on a buffer that is not used up, with what it assigns to `current` and `availBits`.
  unfoldable pub take_word : BitInput → Exec BitInput
  take_word t =
      if ltb t.limit (t.position + 8)
      then (do
        let shift = shl (t.limit - 1 - t.position) 3
        (val, t') ← gather 8 t 0 shift
        ok (record t' { current = val; avail_bits = shift + 8 }))
      else (do
        val ← uint64_of (drop t.position t.buffer)
        ok (record t { position = t.position + 8; current = val; avail_bits = 64 }))

  -- `this.current, this.availBits = this.pull()`
  unfoldable pub pull : BitInput → Exec BitInput
  pull t =
      if leb t.limit t.position
      then (do t' ← or_panic (read_from_source t); take_word t')
      else take_word t

  unfoldable pub read_bit : BitInput → Exec (ℕ × BitInput)
  read_bit t = do
    t' ← (if t.avail_bits == 0 then pull t else ok t)
    ok (
      bit_and (shr t'.current (t'.avail_bits - 1)) 1,
      record t' { avail_bits = t'.avail_bits - 1 },
    )

  -- Each call but the first has eight bits or more: fuel of nine is enough.
  unfoldable pub read_more_bits : ℕ → BitInput → (count : ℕ) → Exec (ℕ × BitInput)
  read_more_bits zero t count = stuck
  read_more_bits (suc fuel) t count =
      if count == 0 || ltb 64 count
      then panic
      else if leb count t.avail_bits
      then ok (
        bit_and (shr t.current (t.avail_bits - count)) (shr all_ones (64 - count)),
        record t { avail_bits = t.avail_bits - count },
      )
      else (do
        t' ← pull t
        (low, t'') ← read_more_bits fuel t' (count - t.avail_bits)
        ok (
          bit_or
              (u64
                (shl (bit_and t.current (shr all_ones (64 - t.avail_bits))) (count - t.avail_bits)))
              low,
          t'',
        ))

  unfoldable pub read_bits : BitInput → (count : ℕ) → Exec (ℕ × BitInput)
  read_bits t count = read_more_bits 9 t count

  -- With true for an error: whether there is more to read.
  unfoldable pub has_more_to_read : BitInput → (Bool × Bool) × BitInput
  has_more_to_read t =
      if t.closed
      then ((false, true), t)
      else if ltb (t.position + 1) t.limit || not (t.avail_bits == 0)
      then ((true, false), t)
      else (let (err, t') = read_from_source t in ((not err, err), t'))

  unfoldable pub close : BitInput → BitInput
  close t = if t.closed then t else record t {
    closed = true;
    bits_read = sub64 t.bits_read t.avail_bits;
    avail_bits = 0;
    limit = 0;
  }

  -- `Read()`
  abbrev pub bits_consumed : BitInput → ℕ
  bits_consumed t = sub64 (u64 (t.bits_read + shl t.position 3)) t.avail_bits
