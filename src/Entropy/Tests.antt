-- ===== src/Entropy/Tests.antt =====
-- Concrete runs of the entropy utilities, and their theorems at concrete inputs.
use kanzi_go.Base.{ℕ, ◌+◌, ◌^◌, ◌<◌, ◌≡◌, ◌≢◌, refl, arith, List, [], ◌∷◌, ◌++◌, ok, length}
use kanzi_go.Base.Digits.{bits, byte_bits}
use kanzi_go.Bitstream.Reference.{reference_output, reference_input}
use kanzi_go.Entropy.VarInt.{write_var_int, read_var_int}
use kanzi_go.Entropy.VarInt.Format.{var_int_bytes}
use kanzi_go.Entropy.VarInt.Write.{write_var_int_lem}
use kanzi_go.Entropy.VarInt.Read.{read_var_int_lem}
use kanzi_go.Entropy.VarInt.RoundTrip.{read-write, read-write_large}

write_300 : write_var_int reference_output [] 300 ≡ ok (byte_bits (0xAC ∷ 0x02 ∷ []), 1)
unfolding write_var_int bits
write_300 = refl

write_var_int_lem_example :
    (s' : List ℕ) × (n : ℕ) × (write_var_int reference_output (1 ∷ []) 300 ≡ ok (s', n))
    × Unit {0}
    × (s' ≡ (1 ∷ []) ++ byte_bits (var_int_bytes 300))
    × (length (var_int_bytes 300) ≡ n + 1)
    × (n < 5)
write_var_int_lem_example = write_var_int_lem reference_output (1 ∷ []) 300 tt (omega arith)

read_var_int_lem_example :
    (s' : List ℕ) × (read_var_int reference_input
        (byte_bits (var_int_bytes (2 ^ 30 + 5)) ++ (1 ∷ []))
      ≡ ok (5, s'))
    × Unit {0}
    × (s' ≡ bits 8 4 ++ (1 ∷ []))
unfolding bits
read_var_int_lem_example =
    read_var_int_lem reference_input (byte_bits (var_int_bytes (2 ^ 30 + 5)) ++ (1 ∷ []))
      (2 ^ 30 + 5) (1 ∷ []) tt (omega arith) refl

read-write_example :
    ((s' : List ℕ) × (n : ℕ) × (write_var_int reference_output [] 300 ≡ ok (s', n))
      × (s' ≡ [] ++ byte_bits (var_int_bytes 300)))
    × ((t' : List ℕ) × (read_var_int reference_input (byte_bits (var_int_bytes 300) ++ (1 ∷ []))
          ≡ ok (300, t'))
        × Unit {0}
        × (t' ≡ 1 ∷ []))
read-write_example =
    read-write reference_output reference_input [] (byte_bits (var_int_bytes 300) ++ (1 ∷ [])) 300
      (1 ∷ []) tt tt (omega arith) refl

read-write_large_example :
    ((s' : List ℕ) × (n : ℕ) × (write_var_int reference_output [] (2 ^ 30) ≡ ok (s', n))
      × (s' ≡ [] ++ byte_bits (var_int_bytes (2 ^ 30))))
    × ((t' : List ℕ) × (w : ℕ) × (read_var_int reference_input
            (byte_bits (var_int_bytes (2 ^ 30)) ++ (1 ∷ []))
          ≡ ok (w, t'))
        × (w ≢ 2 ^ 30)
        × (t' ≡ bits 8 4 ++ (1 ∷ [])))
read-write_large_example =
    read-write_large reference_output reference_input []
      (byte_bits (var_int_bytes (2 ^ 30)) ++ (1 ∷ [])) (2 ^ 30) (1 ∷ []) tt tt (omega arith)
      (omega arith) refl
