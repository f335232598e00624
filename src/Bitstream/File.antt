-- ===== src/Bitstream/File.antt =====
-- What the output stream of v2/bitstream/DefaultOutputBitStream.go has written to its sink, read by the input
-- stream of v2/bitstream/DefaultInputBitStream.go. Going from the written file to an opened one is a parameter.
use kanzi_go.Base.{
  ℕ, ◌%◌, ◌^◌, ◌<◌, ◌≤◌, ◌≡◌, refl, ap, ◌∙◌, false, List, [], ◌∷◌, ◌++◌, u8, some, ok, replicate,
  IsBytes, arith,
}
use kanzi_go.Base.Digits.{bits, byte_bits, bits-mod_256}
use kanzi_go.Bitstream.Sink.{Sink, reference_sink}
use kanzi_go.Bitstream.Source.{Source, reference_source}
use kanzi_go.Bitstream.Output.{BitOutput, close}
use kanzi_go.Bitstream.Output.Stream.{contents}
use kanzi_go.Bitstream.Output.Close.{close_lem}
use kanzi_go.Bitstream.Input.{BitInput, new_bit_input}
use kanzi_go.Bitstream.Input.Window.{remaining}
use kanzi_go.Bitstream.Input.Start.{new_bit_input_lem}
use kanzi_go.Bitstream.Output.Stream.{IsValid as IsWritable}
use kanzi_go.Bitstream.Input.Window.{IsValid as IsReadable}

-- A source opened on what a sink has received has its bits.
pub record StoredFile (os : Sink) (is : Source) : Type 0 where
  pub reopen : os.State → is.State
  pub open_law : (s : os.State) → is.IsOpen (reopen s)
  pub bits_law : (s : os.State) → byte_bits (is.pending (reopen s)) ≡ byte_bits (os.received s)

-- What the constructors of the streams ask of the size of their buffer.
abbrev pub IsBufferSize : ℕ → Type 0
IsBufferSize n = (1024 ≤ n) × (n ≤ 2 ^ 29) × (n % 8 ≡ 0)

module _ (os : Sink) (is : Source) (file : StoredFile os is) where
  -- The stream is closed, and what it wrote is opened.
  pub record Reopened (t : BitOutput os) (size : ℕ) : Type 0 where
    pub closed : BitOutput os
    pub input : BitInput is
    pub pad : ℕ
    pub close_returns : close os t ≡ ok (false, closed)
    pub open_returns : new_bit_input is (file.reopen closed.sink) size ≡ some input
    pub readable : IsReadable is input
    pub pad_bound : pad < 8
    pub same_bits : remaining is input ≡ contents os t ++ replicate pad 0

  pub reopen_lem :
      (t : BitOutput os) (size : ℕ) → IsWritable os t → IsBufferSize size → Reopened t size
  reopen_lem t size v (l, h, e) =
      let (t', pad, c, b, r, n, s, x, y) = close_lem os t 0 0 1 v in
      let (u, o, w, m, z) =
        new_bit_input_lem is (file.reopen t'.sink) size (file.open_law t'.sink) l h e in
      record {
        closed = t';
        input = u;
        pad = pad;
        close_returns = c;
        open_returns = o;
        readable = w;
        pad_bound = b;
        same_bits = m ∙ file.bits_law t'.sink ∙ r;
      }

-- The sink and the source that are lists of bytes.
abbrev pub as_bytes : List ℕ → List ℕ
as_bytes [] = []
as_bytes (x ∷ xs) = u8 x ∷ as_bytes xs

pub as_bytes-IsBytes : (xs : List ℕ) → IsBytes (as_bytes xs)
as_bytes-IsBytes [] = tt
as_bytes-IsBytes (x ∷ xs) = (omega arith, as_bytes-IsBytes xs)

pub byte_bits-as_bytes : (xs : List ℕ) → byte_bits (as_bytes xs) ≡ byte_bits xs
byte_bits-as_bytes [] = refl
byte_bits-as_bytes (x ∷ xs) =
    ap (λ b. b ++ byte_bits (as_bytes xs)) (bits-mod_256 x)
    ∙ ap (λ r. bits 8 x ++ r) (byte_bits-as_bytes xs)

abbrev pub reference_file : StoredFile reference_sink reference_source
reference_file = record {
  reopen = as_bytes;
  open_law = as_bytes-IsBytes;
  bits_law = byte_bits-as_bytes;
}
