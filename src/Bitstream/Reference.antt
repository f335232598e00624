-- ===== src/Bitstream/Reference.antt =====
-- Streams that are the lists of their bits: the promises of the interfaces can be met.
use kanzi_go.Base.{
  ℕ, zero, suc, ◌+◌, ◌*◌, ◌/◌, ◌%◌, ◌^◌, ◌≡◌, refl, sym, ap, ◌∙◌, List, [], ◌∷◌, ◌++◌, Exec, ok,
  panic, ◌>>=◌, length, take, arith, append_assoc, IsBytes,
}
use kanzi_go.Base.Digits.{bits, byte_bits, from_bits, from_bits-bits, length-bits}
use native.Mathlib.Nat.{mod-eq_of_lt}
use kanzi_go.Bitstream.Api.{OutputBitStream, InputBitStream}

abbrev pub reference_output : OutputBitStream
reference_output = record {
  State = List ℕ;
  write_bit = λ s bit. ok (s ++ (bit % 2 ∷ []));
  write_bits = λ s value count. ok (s ++ bits count value);
  write_array = λ s block count. ok (count, s ++ byte_bits (take (count / 8) block));
  contents = λ s. s;
  IsOpen = λ s. Unit {0};
  write_bit_law = λ s bit o. (s ++ (bit % 2 ∷ []), refl, tt, refl);
  write_bits_law = λ s value count o p q. (s ++ bits count value, refl, tt, refl);
  write_array_law = λ s block n o b h. (
    s ++ byte_bits (take (8 * n / 8) block),
    refl,
    tt,
    ap (λ k. s ++ byte_bits (take k block)) (omega arith),
  );
}

unfoldable pub next_bit : List ℕ → Exec (ℕ × List ℕ)
next_bit [] = panic
next_bit (b ∷ s) = ok (b, s)

pub next_bit-cons : (b : ℕ) (s : List ℕ) → next_bit (b ∷ s) ≡ ok (b, s)
unfolding next_bit
next_bit-cons b s = refl

unfoldable pub next_bits : ℕ → ℕ → List ℕ → Exec (ℕ × List ℕ)
next_bits acc zero s = ok (acc, s)
next_bits acc (suc n) [] = panic
next_bits acc (suc n) (b ∷ s) = next_bits (acc * 2 + b) n s

next_bits-append :
    (xs rest : List ℕ) (acc : ℕ)
    → next_bits acc (length xs) (xs ++ rest) ≡ ok (from_bits acc xs, rest)
unfolding next_bits from_bits
next_bits-append [] rest acc = refl
next_bits-append (x ∷ xs) rest acc = next_bits-append xs rest (acc * 2 + x)

pub next_bits-bits :
    (value count : ℕ) (rest : List ℕ)
    → next_bits 0 count (bits count value ++ rest) ≡ ok (value % 2 ^ count, rest)
next_bits-bits value count rest =
    ap (λ n. next_bits 0 n (bits count value ++ rest)) (sym (length-bits count value))
    ∙ next_bits-append (bits count value) rest 0
    ∙ ap (λ n. ok (n, rest)) (omega (arith, from_bits-bits count value 0))

unfoldable pub next_bytes : ℕ → List ℕ → Exec (List ℕ × List ℕ)
next_bytes zero s = ok ([], s)
next_bytes (suc n) s = do (b, s') ← next_bits 0 8 s; (bs, s'') ← next_bytes n s'; ok (b ∷ bs, s'')

pub next_bytes-byte_bits :
    (block rest : List ℕ)
    → IsBytes block
    → next_bytes (length block) (byte_bits block ++ rest) ≡ ok (block, rest)
unfolding next_bytes
next_bytes-byte_bits [] rest h = refl
next_bytes-byte_bits (b ∷ bs) rest h =
    let e : b % 2 ^ 8 ≡ b = mod-eq_of_lt h.0 in
    rw (
      append_assoc (bits 8 b) (byte_bits bs) rest,
      next_bits-bits b 8 (byte_bits bs ++ rest),
      e,
      next_bytes-byte_bits bs rest h.1,
    )

abbrev pub reference_input : InputBitStream
reference_input = record {
  State = List ℕ;
  read_bit = next_bit;
  read_bits = λ s count. next_bits 0 count s;
  read_array = λ s count. next_bytes (count / 8) s;
  remaining = λ s. s;
  IsOpen = λ s. Unit {0};
  read_bit_law = λ s bit rest o e. (rest, rw e (next_bit-cons bit rest), tt, refl);
  read_bits_law =
      λ s value count rest o p q e. (rest, rw e (next_bits-bits value count rest), tt, refl);
  read_array_law = λ s block rest o h e. (
    rest,
    rw e (
        ap (λ n. next_bytes n (byte_bits block ++ rest)) (omega arith)
        ∙ next_bytes-byte_bits block rest h),
    tt,
    refl,
  );
}
