-- ===== src/Entropy/VarInt.antt =====
-- v2/entropy/EntropyUtils.go: `WriteVarInt` and `ReadVarInt`.
pub mod Format
pub mod Write
pub mod Read
pub mod RoundTrip
use kanzi_go.Base.{
  ℕ, zero, suc, ◌+◌, bit_and, bit_or, shl, shr, u32, u64, ltb, leb, if◌then◌else◌, Exec, ok, stuck,
  ◌>>=◌,
}
use kanzi_go.Bitstream.Api.{OutputBitStream, InputBitStream}

module _ (out : OutputBitStream) where
  open out use {State, write_bits}

  -- The loop, with `res`; then the last byte.
  write_groups : ℕ → State → ℕ → ℕ → Exec (State × ℕ)
  write_groups zero s value res = stuck
  write_groups (suc fuel) s value res =
      let more = (do
        s' ← write_bits s (u64 (bit_or 0x80 (bit_and value 0x7F))) 8
        write_groups fuel s' (shr value 7) (res + 1)) in
      if leb 128 value then more else (do s' ← write_bits s value 8; ok (s', res))

  -- A uint32 has at most five groups of seven bits.
  unfoldable pub write_var_int : State → ℕ → Exec (State × ℕ)
  unfolding write_groups
  write_var_int s value = write_groups 5 s value 0

module _ (in_ : InputBitStream) where
  open in_ use {State, read_bits}

  -- The third and fourth byte, each read only behind a byte of 128 or more.
  read_fourth : State → ℕ → ℕ → Exec (ℕ × State)
  read_fourth s value res = if ltb value 128 then ok (res, s) else (do
    (value', s') ← read_bits s 8
    ok (bit_or res (u32 (shl (bit_and value' 0x7F) 21)), s'))

  read_third : State → ℕ → ℕ → Exec (ℕ × State)
  unfolding read_fourth
  read_third s value res = if ltb value 128 then ok (res, s) else (do
    (value', s') ← read_bits s 8
    read_fourth s' value' (bit_or res (u32 (shl (bit_and value' 0x7F) 14))))

  unfoldable pub read_var_int : State → Exec (ℕ × State)
  unfolding read_third
  read_var_int s = do
    (value, s') ← read_bits s 8
    if ltb value 128 then ok (value, s') else (do
      (value', s'') ← read_bits s' 8
      read_third s'' value' (bit_or (bit_and value 0x7F) (u32 (shl (bit_and value' 0x7F) 7))))
