-- ===== src/Bitstream/Output.antt =====
-- v2/bitstream/DefaultOutputBitStream.go. The slice that `WriteArray` is given has no capacity beyond its
-- length; the rest of it from `start` stands for the slice and `start`. int64 is kept modulo 2^64.
pub mod Push
pub mod Words
pub mod Stream
pub mod Write
pub mod Start
pub mod Bit
pub mod Rest
pub mod Close
pub mod Array
pub mod AsStream
mod Tests
use kanzi_go.Base.{
  ℕ, zero, suc, ◌+◌, ◌-◌, ◌*◌, ◌/◌, ◌%◌, ◌^◌, min, Bool, true, false, not, ◌&&◌, List, [], ◌∷◌,
  ◌++◌, Option, none, some, bit_and, bit_or, shl, shr, u8, u64, sub64, ltb, leb, ◌==◌,
  if◌then◌else◌, length, take, drop, replicate, Exec, ok, panic, stuck, ◌>>=◌,
}
use kanzi_go.Bitstream.Sink.{Sink}

-- `binary.BigEndian.PutUint64(buffer[index:], value)` panics with fewer than eight bytes left.
abbrev pub bytes_of_64 : ℕ → List ℕ
bytes_of_64 v =
    u8 (shr v 56)
    ∷ u8 (shr v 48)
    ∷ u8 (shr v 40)
    ∷ u8 (shr v 32)
    ∷ u8 (shr v 24)
    ∷ u8 (shr v 16)
    ∷ u8 (shr v 8)
    ∷ u8 v
    ∷ []

unfoldable pub put_uint64 : List ℕ → ℕ → ℕ → Exec (List ℕ)
put_uint64 buffer index v =
    if leb (index + 8) (length buffer)
    then ok (take index buffer ++ (bytes_of_64 v ++ drop (index + 8) buffer))
    else panic

-- `binary.BigEndian.Uint64(bits)`
unfoldable pub uint64_of : List ℕ → Exec ℕ
uint64_of (a ∷ b ∷ c ∷ d ∷ e ∷ f ∷ g ∷ h ∷ rest) =
    ok (a * 2 ^ 56 + b * 2 ^ 48 + c * 2 ^ 40 + d * 2 ^ 32 + e * 2 ^ 24 + f * 2 ^ 16 + g * 2 ^ 8 + h)
uint64_of rest = panic

-- `copy(buffer[index:], bits)`
unfoldable pub copy_at : List ℕ → ℕ → List ℕ → List ℕ
copy_at buffer index bits =
    let n = min (length buffer - index) (length bits) in
    take index buffer ++ (take n bits ++ drop (index + n) buffer)

module _ (os : Sink) where
  pub record BitOutput : Type 0 where
    pub closed : Bool
    pub written : ℕ
    pub position : ℕ
    pub avail_bits : ℕ
    pub current : ℕ
    pub sink : os.State
    pub buffer : List ℕ

  -- `none` is the error on the size of the buffer.
  unfoldable pub new_bit_output : os.State → ℕ → Option BitOutput
  new_bit_output s buffer_size =
      if ltb buffer_size 1024
      then none
      else if ltb (shl 1 29) buffer_size
      then none
      else if not (bit_and buffer_size 7 == 0)
      then none
      else some (record {
        closed = false;
        written = 0;
        position = 0;
        avail_bits = 64;
        current = 0;
        sink = s;
        buffer = replicate buffer_size 0;
      })

  -- What an error of the sink leaves, or its success.
  abbrev pub after_write : BitOutput → Bool × os.State → Bool × BitOutput
  after_write t (true, s) = (true, record t { sink = s })
  after_write t (false, s) =
      (false, record t { sink = s; written = u64 (t.written + shl t.position 3); position = 0 })

  -- With true for an error.
  unfoldable pub flush : BitOutput → Exec (Bool × BitOutput)
  flush t =
      if t.closed
      then ok (true, t)
      else if ltb 0 t.position
      then (if leb t.position (length t.buffer)
          then ok (after_write t (os.write t.sink (take t.position t.buffer)))
          else panic)
      else ok (false, t)

  abbrev pub or_panic : Bool × BitOutput → Exec BitOutput
  or_panic (true, t) = panic
  or_panic (false, t) = ok t

  abbrev pub flush_or_panic : BitOutput → Exec BitOutput
  flush_or_panic t = do r ← flush t; or_panic r

  unfoldable pub flush_if_full : BitOutput → Exec BitOutput
  flush_if_full t = if leb (length t.buffer) (t.position + 8) then flush_or_panic t else ok t

  unfoldable pub push : BitOutput → ℕ → Exec BitOutput
  push t val = do
    buffer' ← put_uint64 t.buffer t.position val
    flush_if_full (record t { buffer = buffer'; position = t.position + 8 })

  unfoldable pub write_bit : BitOutput → ℕ → Exec BitOutput
  write_bit t bit =
      if leb t.avail_bits 1
      then (do
        t' ← push t (bit_or t.current (bit_and bit 1))
        ok (record t' { current = 0; avail_bits = 64 }))
      else ok (record t {
        avail_bits = t.avail_bits - 1;
        current = bit_or t.current (u64 (shl (bit_and bit 1) (t.avail_bits - 1)));
      })

  -- `this.current | ((value << (64 - count)) >> (64 - this.availBits))`
  abbrev pub joined : BitOutput → (value count : ℕ) → ℕ
  joined t value count = bit_or t.current (shr (u64 (shl value (64 - count))) (64 - t.avail_bits))

  unfoldable pub write_bits : BitOutput → (value count : ℕ) → Exec BitOutput
  write_bits t value count =
      if ltb 64 count
      then panic
      else if leb t.avail_bits count
      then (do
        let remaining = count - t.avail_bits
        t' ← push t (joined t value count)
        ok (record t' { current = u64 (shl value (64 - remaining)); avail_bits = 64 - remaining }))
      else ok (record t { current = joined t value count; avail_bits = t.avail_bits - count })

  -- `Written()`
  abbrev pub bits_written : BitOutput → ℕ
  bits_written t = u64 (t.written + shl t.position 3 + sub64 64 t.avail_bits)

  -- The bytes of `current` that are in use, from the shift on: fuel of eight is enough.
  unfoldable pub store_current : ℕ → (shift : ℕ) → BitOutput → Exec BitOutput
  store_current zero shift t = if ltb t.avail_bits 64 then stuck else ok t
  store_current (suc fuel) shift t =
      if ltb t.avail_bits 64
      then (if ltb t.position (length t.buffer)
          then store_current fuel (sub64 shift 8) (record t {
            buffer =
                take t.position t.buffer
                ++ (u8 (shr t.current shift) ∷ drop (t.position + 1) t.buffer);
            position = t.position + 1;
            avail_bits = t.avail_bits + 8;
          })
          else panic)
      else ok t

  -- An error of the sink brings back three fields.
  abbrev pub after_close : BitOutput → Bool × BitOutput → Bool × BitOutput
  after_close saved (true, t) = (
    true,
    record t { avail_bits = saved.avail_bits; position = saved.position; current = saved.current },
  )
  after_close saved (false, t) = (
    false,
    record t {
      closed = true;
      position = 0;
      avail_bits = 0;
      written = sub64 t.written 64;
      buffer = replicate 8 0;
    },
  )

  -- With true for an error.
  unfoldable pub close : BitOutput → Exec (Bool × BitOutput)
  close t = if t.closed then ok (false, t) else (do
    t' ← store_current 8 56 t
    r ← flush (record t' { written = sub64 t'.written (sub64 t'.avail_bits 64); avail_bits = 64 })
    ok (after_close t r))
