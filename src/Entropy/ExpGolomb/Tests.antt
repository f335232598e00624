-- ===== src/Entropy/ExpGolomb/Tests.antt =====
-- Concrete runs of the exponential Golomb codec, and its theorems at concrete inputs.
use kanzi_go.Base.{ℕ, ◌≡◌, ◌≢◌, refl, arith, List, [], ◌∷◌, ◌++◌, true, false, ok, IsBytes}
use kanzi_go.Bitstream.Reference.{reference_output, reference_input}
use kanzi_go.Entropy.ExpGolomb.{encode_byte, write, decode_byte, read}
use kanzi_go.Entropy.ExpGolomb.Code.{codeword}
use kanzi_go.Entropy.ExpGolomb.RoundTrip.{codewords, read-write_signed, decode-encode_unsigned}

abbrev block : List ℕ
block = 0 ∷ 3 ∷ 255 ∷ 128 ∷ []

block-IsBytes : IsBytes block
block-IsBytes = (omega arith, (omega arith, (omega arith, (omega arith, tt))))

read-write_signed_example :
    ((s' : List ℕ) × (write reference_output true [] block ≡ ok (4, s'))
      × (s' ≡ [] ++ codewords true block))
    × ((t' : List ℕ) × (read reference_input 7 true 4 (codewords true block ++ (1 ∷ []))
          ≡ ok (block, t'))
        × Unit {0}
        × (t' ≡ 1 ∷ []))
read-write_signed_example =
    read-write_signed reference_output reference_input 7 [] (codewords true block ++ (1 ∷ [])) block
      (1 ∷ []) tt tt block-IsBytes (omega arith) refl

decode-encode_unsigned_example :
    ((s' : List ℕ) × (encode_byte reference_output false [] 200 ≡ ok s')
      × (s' ≡ [] ++ codeword false 200))
    × ((t' : List ℕ) × (decode_byte reference_input 7 false (codeword false 200 ++ (1 ∷ []))
          ≡ ok (56, t'))
        × (◌≢◌ {A = ℕ} 56 200)
        × (t' ≡ 1 ∷ []))
decode-encode_unsigned_example =
    decode-encode_unsigned reference_output reference_input 7 [] (codeword false 200 ++ (1 ∷ []))
      200 (1 ∷ []) tt tt (omega arith) (omega arith) (omega arith) refl
