-- ===== src/Bitstream/Api.antt =====
-- `kanzi.OutputBitStream` and `kanzi.InputBitStream` of v2/Definitions.go: the operations, and what
-- their comments promise of a stream that is open, in terms of the bits written and still to be read.
use kanzi_go.Base.{
  ℕ, ◌*◌, ◌≤◌, ◌<◌, ◌%◌, ◌^◌, ◌≡◌, List, [], ◌∷◌, ◌++◌, Exec, ok, length, take, IsBytes,
}
use kanzi_go.Base.Digits.{bits, byte_bits}

pub record OutputBitStream : Type 1 where
  pub State : Type 0
  pub write_bit : State → ℕ → Exec State
  pub write_bits : State → ℕ → ℕ → Exec State
  -- With the number of bits written.
  pub write_array : State → List ℕ → ℕ → Exec (ℕ × State)
  -- The bits written so far; whether the stream is open and its sink takes what is written.
  pub contents : State → List ℕ
  pub IsOpen : State → Type 0
  pub write_bit_law :
      (s : State) (bit : ℕ)
      → IsOpen s
      → (s' : State) × (write_bit s bit ≡ ok s')
        × IsOpen s'
        × (contents s' ≡ contents s ++ (bit % 2 ∷ []))
  pub write_bits_law :
      (s : State) (value count : ℕ)
      → IsOpen s
      → 0 < count
      → count ≤ 64
      → (s' : State) × (write_bits s value count ≡ ok s')
        × IsOpen s'
        × (contents s' ≡ contents s ++ bits count value)
  -- For a whole number of bytes.
  pub write_array_law :
      (s : State) (block : List ℕ) (n : ℕ)
      → IsOpen s
      → IsBytes block
      → n ≤ length block
      → (s' : State) × (write_array s block (8 * n) ≡ ok (8 * n, s'))
        × IsOpen s'
        × (contents s' ≡ contents s ++ byte_bits (take n block))

pub record InputBitStream : Type 1 where
  pub State : Type 0
  pub read_bit : State → Exec (ℕ × State)
  pub read_bits : State → ℕ → Exec (ℕ × State)
  -- The bytes read: the array is given back in place of being filled.
  pub read_array : State → ℕ → Exec (List ℕ × State)
  -- The bits that are still to be read; whether the stream is open.
  pub remaining : State → List ℕ
  pub IsOpen : State → Type 0
  pub read_bit_law :
      (s : State) (bit : ℕ) (rest : List ℕ)
      → IsOpen s
      → remaining s ≡ bit ∷ rest
      → (s' : State) × (read_bit s ≡ ok (bit, s')) × IsOpen s' × (remaining s' ≡ rest)
  pub read_bits_law :
      (s : State) (value count : ℕ) (rest : List ℕ)
      → IsOpen s
      → 0 < count
      → count ≤ 64
      → remaining s ≡ bits count value ++ rest
      → (s' : State) × (read_bits s count ≡ ok (value % 2 ^ count, s'))
        × IsOpen s'
        × (remaining s' ≡ rest)
  pub read_array_law :
      (s : State) (block rest : List ℕ)
      → IsOpen s
      → IsBytes block
      → remaining s ≡ byte_bits block ++ rest
      → (s' : State) × (read_array s (8 * length block) ≡ ok (block, s'))
        × IsOpen s'
        × (remaining s' ≡ rest)
