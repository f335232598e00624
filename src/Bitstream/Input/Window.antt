-- ===== src/Bitstream/Input/Window.antt =====
-- What the fields of an open input stream stand for.
use kanzi_go.Base.{ℕ, ◌-◌, ◌%◌, ◌≤◌, ◌≡◌, ◌⊎◌, false, List, [], ◌++◌, length, take, drop, IsBytes}
use kanzi_go.Base.Digits.{bits, byte_bits}
use kanzi_go.Bitstream.Source.{Source}
use kanzi_go.Bitstream.Input.{BitInput}

module _ (is : Source) where
  -- A word of the buffer that is not whole is the last one.
  pub record IsValid (t : BitInput is) : Type 0 where
    pub is_open : t.closed ≡ false
    pub inside : t.position ≤ t.limit
    pub within : t.limit ≤ length t.buffer
    pub sized : 1024 ≤ length t.buffer
    pub whole : length t.buffer % 8 ≡ 0
    pub aligned : (t.position % 8 ≡ 0) ⊎ (t.position ≡ t.limit)
    pub filled : (t.position ≡ t.limit) ⊎ ((t.limit ≡ length t.buffer) ⊎ (is.pending t.source ≡ []))
    pub bytes : IsBytes t.buffer
    pub source_open : is.IsOpen t.source
    pub avail_bound : t.avail_bits ≤ 64

  -- The bytes that are in the buffer, and those that are still to come.
  abbrev pub in_buffer : BitInput is → List ℕ
  in_buffer t = take (t.limit - t.position) (drop t.position t.buffer)

  abbrev pub rest_bytes : BitInput is → List ℕ
  rest_bytes t = in_buffer t ++ is.pending t.source

  -- The bits that are still to be read.
  abbrev pub remaining : BitInput is → List ℕ
  remaining t = bits t.avail_bits t.current ++ byte_bits (rest_bytes t)
