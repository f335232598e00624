-- ===== src/Entropy/ExpGolomb/RoundTrip.antt =====
-- Bytes through the encoder and back.
use kanzi_go.Base.{
  ℕ, zero, suc, ◌+◌, ◌^◌, ◌<◌, ◌≤◌, ◌≡◌, ◌-◌, refl, ap, ◌∙◌, sym, List, [], ◌∷◌, ◌++◌, replicate,
  arith, Bool, true, false, ◌==◌, length, bit_and, shr, ok, IsBytes, append_assoc, append-nil, map,
  ◌≢◌,
}
use kanzi_go.Base.Masks.{and_mask}
use kanzi_go.Base.Digits.{bits}
use kanzi_go.Bitstream.Api.{OutputBitStream, InputBitStream}
use kanzi_go.Entropy.ExpGolomb.{
  emit_entry, encode_byte, encode_block, write, read_log2, read_value, decode_byte, read,
}
use kanzi_go.Entropy.ExpGolomb.Code.{
  decoded, entry, zeros, digits_behind, low, value, all-Entry, cache-entry, codeword, bits-entry,
  digits_behind_bounds,
}
use native.Mathlib.Nat.{mod-eq_of_lt}

abbrev pub codewords : Bool → List ℕ → List ℕ
codewords signed [] = []
codewords signed (v ∷ vs) = codeword signed v ++ codewords signed vs

decoded_zero : (signed : Bool) → decoded signed 0 ≡ 0
decoded_zero true = refl
decoded_zero false = refl

map-decoded : (block : List ℕ) → map (decoded true) block ≡ block
map-decoded [] = refl
map-decoded (v ∷ vs) = ap (λ r. v ∷ r) (map-decoded vs)

module _ (out : OutputBitStream) where
  open out use {State, contents, IsOpen, write_bit_law, write_bits_law}

  encode_byte_lem :
      (signed : Bool) (s : State) (val : ℕ)
      → IsOpen s
      → val < 256
      → (s' : State) × (encode_byte out signed s val ≡ ok s')
        × IsOpen s'
        × (contents s' ≡ contents s ++ codeword signed val)
  unfolding encode_byte
  encode_byte_lem signed s zero o h = unfold codeword in write_bit_law s 1 o
  encode_byte_lem signed s (suc n) o h =
      let e = all-Entry signed (suc n) (omega arith) h in
      let j = digits_behind_bounds signed (zeros signed (suc n)) in
      let nz : (suc n == 0) ≡ false = ground arith in
      let (s', r, o', c) =
        write_bits_law s (bit_and (entry signed (suc n)) 0x1FF) (shr (entry signed (suc n)) 9) o
          (omega (arith, e.code_length)) (omega (arith, e.code_length, e.few_zeros, j)) in
      (
        s',
        rw (nz, cache-entry signed (suc n) h) (unfold emit_entry in r),
        o',
        c ∙ ap (λ d. contents s ++ d) (bits-entry signed n h),
      )

  encode_block_lem :
      (signed : Bool) (s : State) (block : List ℕ)
      → IsOpen s
      → IsBytes block
      → (s' : State) × (encode_block out signed s block ≡ ok s')
        × IsOpen s'
        × (contents s' ≡ contents s ++ codewords signed block)
  encode_block_lem signed s [] o h = (s, unfold encode_block in refl, o, sym (append-nil _))
  encode_block_lem signed s (v ∷ vs) o h =
      let (s', e, o', c) = encode_byte_lem signed s v o h.0 in
      let (s'', e', o'', c') = encode_block_lem signed s' vs o' h.1 in
      (
        s'',
        step v vs s s' s'' e e',
        o'',
        c'
            ∙ ap (λ b. b ++ codewords signed vs) c
            ∙ append_assoc (contents s) (codeword signed v) (codewords signed vs),
      )
    where
      step :
          (v : ℕ) (vs : List ℕ) (s s' s'' : State)
          → encode_byte out signed s v ≡ ok s'
          → encode_block out signed s' vs ≡ ok s''
          → encode_block out signed s (v ∷ vs) ≡ ok s''
      step v vs s s' s'' e e' = unfold encode_block in rw e e'

module _ (in_ : InputBitStream) where
  open in_ use {State, remaining, IsOpen, read_bit_law, read_bits_law}

  read_log2_lem :
      (fuel k : ℕ) (s : State) (log2 : ℕ) (rest : List ℕ)
      → IsOpen s
      → k < fuel
      → remaining s ≡ replicate k 0 ++ (1 ∷ rest)
      → (s' : State) × (read_log2 in_ fuel s log2 ≡ ok (log2 + k, s'))
        × IsOpen s'
        × (remaining s' ≡ rest)
  unfolding read_log2
  read_log2_lem zero k s log2 rest o h e = absurd (omega arith)
  read_log2_lem (suc fuel) zero s log2 rest o h e =
      let (s', r, o', l) = read_bit_law s 1 rest o e in
      (s', rw (r, read_log2) (ap (λ n. ok (n, s')) (omega arith)), o', l)
  read_log2_lem (suc fuel) (suc k) s log2 rest o h e =
      let (s', r, o', l) = read_bit_law s 0 (replicate k 0 ++ (1 ∷ rest)) o e in
      let (s'', r', o'', l') = read_log2_lem fuel k s' (log2 + 1) rest o' (omega arith) l in
      (s'', rw (r, read_log2) (r' ∙ ap (λ n. ok (n, s'')) (omega arith)), o'', l')

  read_value_lem :
      (signed : Bool) (s : State) (k v : ℕ) (rest : List ℕ)
      → IsOpen s
      → 0 < k
      → k ≤ 7
      → v < 2 ^ digits_behind signed k
      → remaining s ≡ bits (digits_behind signed k) v ++ rest
      → (s' : State) × (read_value in_ signed s k ≡ ok (value signed k v, s'))
        × IsOpen s'
        × (remaining s' ≡ rest)
  unfolding read_value
  read_value_lem true s k v rest o p h b e =
      let (s', r, o', l) = read_bits_law s v (k + 1) rest o (omega arith) (omega arith) e in
      (s', rw (r, mod-eq_of_lt b), o', l)
  read_value_lem false s k v rest o p h b e =
      let (s', r, o', l) = read_bits_law s v k rest o (omega arith) (omega arith) e in
      (s', rw (r, mod-eq_of_lt b), o', l)

  -- A code with `k` zeros, the first of which tells it from that of 0.
  decode_code :
      (signed : Bool) (fuel : ℕ) (s : State) (k v : ℕ) (rest : List ℕ)
      → IsOpen s
      → 1 ≤ k
      → k ≤ 7
      → 7 ≤ fuel
      → v < 2 ^ digits_behind signed k
      → remaining s ≡ replicate k 0 ++ (1 ∷ (bits (digits_behind signed k) v ++ rest))
      → (s' : State) × (decode_byte in_ fuel signed s ≡ ok (value signed k v, s'))
        × IsOpen s'
        × (remaining s' ≡ rest)
  unfolding decode_byte
  decode_code signed fuel s zero v rest o p h f b e = absurd (omega arith)
  decode_code signed fuel s (suc k) v rest o p h f b e =
      let behind = bits (digits_behind signed (suc k)) v ++ rest in
      let (s1, r1, o1, l1) = read_bit_law s 0 (replicate k 0 ++ (1 ∷ behind)) o e in
      let (s2, r2, o2, l2) = read_log2_lem fuel k s1 1 behind o1 (omega arith) l1 in
      let (s3, r3, o3, l3) = read_value_lem signed s2 (suc k) v rest o2 p h b l2 in
      let clamp : bit_and (1 + k) 7 ≡ suc k = omega (arith, and_mask 3 (1 + k)) in
      (s3, rw r1 (rw r2 (rw clamp r3)), o3, l3)

  decode_byte_lem :
      (signed : Bool) (fuel : ℕ) (s : State) (val : ℕ) (rest : List ℕ)
      → IsOpen s
      → val < 256
      → 7 ≤ fuel
      → remaining s ≡ codeword signed val ++ rest
      → (s' : State) × (decode_byte in_ fuel signed s ≡ ok (decoded signed val, s'))
        × IsOpen s'
        × (remaining s' ≡ rest)
  unfolding codeword
  decode_byte_lem signed fuel s zero rest o h f e =
      let (s', r, o', l) = read_bit_law s 1 rest o e in
      (s', unfold decode_byte in rw (r, decoded_zero signed), o', l)
  decode_byte_lem signed fuel s (suc n) rest o h f e =
      let t = all-Entry signed (suc n) (omega arith) h in
      let k = zeros signed (suc n) in
      let (s', r, o', l) =
        decode_code signed fuel s k (low signed (suc n)) rest o t.some_zeros t.few_zeros f
          t.low_bound
          (e
            ∙ append_assoc (replicate k 0) (1 ∷ bits (digits_behind signed k) (low signed (suc n)))
                rest) in
      (s', r ∙ ap (λ m. ok (m, s')) t.comes_back, o', l)

  read_lem :
      (signed : Bool) (fuel : ℕ) (s : State) (block rest : List ℕ)
      → IsOpen s
      → IsBytes block
      → 7 ≤ fuel
      → remaining s ≡ codewords signed block ++ rest
      → (s' : State) × (read in_ fuel signed (length block) s ≡ ok (map (decoded signed) block, s'))
        × IsOpen s'
        × (remaining s' ≡ rest)
  unfolding read
  read_lem signed fuel s [] rest o h f e = (s, refl, o, e)
  read_lem signed fuel s (v ∷ vs) rest o h f e =
      let (s1, r1, o1, l1) =
        decode_byte_lem signed fuel s v (codewords signed vs ++ rest) o h.0 f
          (e ∙ append_assoc (codeword signed v) (codewords signed vs) rest) in
      let (s2, r2, o2, l2) = read_lem signed fuel s1 vs rest o1 h.1 f l1 in
      (s2, rw (r1, r2), o2, l2)

module _ (out : OutputBitStream) (in_ : InputBitStream) where
  -- The signed codec is lossless. For a block of bytes, an open output stream and an open input stream that
  -- starts with the codewords of the block: `Write` appends the codewords and returns the block's length,
  -- and `Read` returns the block, leaving on the input what follows. Fuel for seven zeros is enough.
  pub read-write_signed :
      (fuel : ℕ) (s : out.State) (t : in_.State) (block rest : List ℕ)
      → out.IsOpen s
      → in_.IsOpen t
      → IsBytes block
      → 7 ≤ fuel
      → in_.remaining t ≡ codewords true block ++ rest
      → ((s' : out.State) × (write out true s block ≡ ok (length block, s'))
          × (out.contents s' ≡ out.contents s ++ codewords true block))
        × ((t' : in_.State) × (read in_ fuel true (length block) t ≡ ok (block, t'))
            × in_.IsOpen t'
            × (in_.remaining t' ≡ rest))
  unfolding write
  read-write_signed fuel s t block rest o ot h f start =
      let (s', e, o', c) = encode_block_lem out true s block o h in
      let (t', r, ot', l) = read_lem in_ true fuel t block rest ot h f start in
      ((s', rw e, c), (t', r ∙ ap (λ b. ok (b, t')) (map-decoded block), ot', l))

  -- The unsigned codec is not lossless. For a byte above 128, an open output stream and an open
  -- input stream that starts with the byte's codeword: `EncodeByte` appends the codeword, from
  -- which `DecodeByte` returns the byte's distance from 256, which is another byte. Fuel for seven
  -- zeros is enough.
  pub decode-encode_unsigned :
      (fuel : ℕ) (s : out.State) (t : in_.State) (val : ℕ) (rest : List ℕ)
      → out.IsOpen s
      → in_.IsOpen t
      → 128 < val
      → val < 256
      → 7 ≤ fuel
      → in_.remaining t ≡ codeword false val ++ rest
      → ((s' : out.State) × (encode_byte out false s val ≡ ok s')
          × (out.contents s' ≡ out.contents s ++ codeword false val))
        × ((t' : in_.State) × (decode_byte in_ fuel false t ≡ ok (256 - val, t'))
            × (256 - val ≢ val)
            × (in_.remaining t' ≡ rest))
  decode-encode_unsigned fuel s t val rest o ot lo h f start =
      let (s', e, o', c) = encode_byte_lem out false s val o h in
      let (t', r, ot', l) = decode_byte_lem in_ false fuel t val rest ot h f start in
      let far : decoded false val ≡ 256 - val = ground arith in
      ((s', e, c), (t', r ∙ ap (λ b. ok (b, t')) far, omega arith, l))
