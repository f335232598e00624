-- ===== src/Entropy/ExpGolomb.antt =====
-- v2/entropy/ExpGolombCodec.go: the exponential Golomb codec.
pub mod Tables
pub mod Code
pub mod Shape
pub mod RoundTrip
mod Tests
use kanzi_go.Base.{
  ℕ, zero, suc, ◌+◌, ◌-◌, ◌^◌, ◌==◌, Bool, true, false, List, [], ◌∷◌, Option, none, some, bit_and,
  shl, shr, u8, u64, sub64, if◌then◌else◌, get_elem?, length, Exec, ok, panic, stuck, ◌>>=◌,
}
use kanzi_go.Bitstream.Api.{OutputBitStream, InputBitStream}
use kanzi_go.Entropy.ExpGolomb.Tables.{unsigned_values, signed_values}

-- `this.cache`, as the constructor chooses it.
pub cache : Bool → List ℕ
cache signed = if signed then signed_values else unsigned_values

module _ (out : OutputBitStream) where
  open out use {State, write_bit, write_bits}

  -- An index out of range panics.
  emit_entry : State → Option ℕ → Exec State
  emit_entry s none = panic
  emit_entry s (some emit) = write_bits s (bit_and emit 0x1FF) (shr emit 9)

  unfoldable pub encode_byte : Bool → State → ℕ → Exec State
  unfolding emit_entry cache
  encode_byte signed s val =
      if val == 0 then write_bit s 1 else emit_entry s (get_elem? (cache signed) val)

  -- `Write`, with what it returns.
  encode_block : Bool → State → List ℕ → Exec State
  encode_block signed s [] = ok s
  encode_block signed s (val ∷ block) = do
    s' ← encode_byte signed s val
    encode_block signed s' block

  pub write : Bool → State → List ℕ → Exec (ℕ × State)
  unfolding encode_block
  write signed s block = do s' ← encode_block signed s block; ok (length block, s')

-- The value of a signed code: `^res + 1` where its lowest bit is set.
unfoldable pub signed_value : (log2 val : ℕ) → ℕ
signed_value log2 val =
    let res = u64 (shr val 1 + shl 1 log2 - 1) in
    u8 (if bit_and val 1 == 1 then sub64 0 res else res)

unfoldable pub unsigned_value : (log2 val : ℕ) → ℕ
unsigned_value log2 val = u8 (shl 1 log2 - 1 + val)

module _ (in_ : InputBitStream) where
  open in_ use {State, read_bit, read_bits}

  -- `for { if ReadBit() == 1 { break }; log2++ }`
  read_log2 : ℕ → State → ℕ → Exec (ℕ × State)
  read_log2 zero s log2 = stuck
  read_log2 (suc fuel) s log2 = do
    (bit, s') ← read_bit s
    elim (bit == 1) [ true ↦ ok (log2, s') | false ↦ read_log2 fuel s' (log2 + 1) ]

  read_value : Bool → State → ℕ → Exec (ℕ × State)
  read_value true s log2 = do (val, s') ← read_bits s (log2 + 1); ok (signed_value log2 val, s')
  read_value false s log2 = do (val, s') ← read_bits s log2; ok (unsigned_value log2 val, s')

  -- `log2 &= 7` is the clamp. `fuel` bounds the zeros read; a code has seven at most.
  unfoldable pub decode_byte : ℕ → Bool → State → Exec (ℕ × State)
  unfolding read_log2 read_value
  decode_byte fuel signed s = do
    (bit, s') ← read_bit s
    if bit == 1
        then ok (0, s')
        else (do (log2, s'') ← read_log2 fuel s' 1; read_value signed s'' (bit_and log2 7))

  -- `Read` of a block of `n` bytes.
  pub read : ℕ → Bool → ℕ → State → Exec (List ℕ × State)
  read fuel signed zero s = ok ([], s)
  read fuel signed (suc n) s = do
    (val, s') ← decode_byte fuel signed s
    (block, s'') ← read fuel signed n s'
    ok (val ∷ block, s'')
