-- ===== src/Bitstream/Input/Tests.antt =====
-- A stream with a buffer of 1024 bytes: concrete runs, and the theorems at concrete states.
use kanzi_go.Base.Bytes.{replicate-IsBytes}
use kanzi_go.Base.{
  Exec, stuck, ◌+◌, ◌<◌, ℕ, ◌*◌, ◌≤◌, ◌≡◌, ◌≢◌, ◌⊎◌, inl, inr, refl, arith, true, false, List, [],
  ◌∷◌, length, length-append, length-take, length-drop, length-replicate, take, drop, replicate,
  some, none, ok, panic,
}
use kanzi_go.Base.Digits.{bits, byte_bits, length-bits}
use kanzi_go.Bitstream.Source.{reference_source}
use kanzi_go.Bitstream.Output.Array.Aligned.{length-byte_bits}
use kanzi_go.Bitstream.Output.{uint64_of}
use kanzi_go.Bitstream.Input.{
  pull, take_word, gather, read_more_bits, read_from_source, after_read, BitInput, new_bit_input,
  read_bit, read_bits, has_more_to_read, close, bits_consumed,
}
use kanzi_go.Bitstream.Input.Window.{IsValid, rest_bytes, remaining}
use kanzi_go.Bitstream.Input.Read.{Took, take_bits_lem}
use kanzi_go.Bitstream.Input.Bit.{take_bit_lem}
use kanzi_go.Bitstream.Input.Array.{read_array, read_unaligned, read_quads, read_words, shift_word}
use kanzi_go.Bitstream.Input.Array.Progress.{TookBytes}
use kanzi_go.Bitstream.Input.Array.Whole.{read_array_lem}
use kanzi_go.Bitstream.Input.Start.{new_bit_input_lem}
use kanzi_go.Bitstream.Input.Ending.{read_bits_total}
use kanzi_go.Bitstream.Input.More.{has_more_to_read_lem, has_more_to_read-loses_byte}
use kanzi_go.Bitstream.Input.Close.{close_input_lem}

-- Three bits are left in `current`: 101; then the rest of a full buffer, then a byte.
abbrev three_bits : BitInput reference_source
three_bits = record {
  closed = false;
  bits_read = 0;
  position = 8;
  avail_bits = 3;
  source = 9 ∷ [];
  buffer = replicate 1024 7;
  limit = 1024;
  current = 5;
}

three_bits-IsValid : IsValid reference_source three_bits
three_bits-IsValid =
    let n = length-replicate {A = ℕ} 1024 7 in
    record {
      is_open = refl;
      inside = omega arith;
      within = omega (arith, n);
      sized = omega (arith, n);
      whole = omega (arith, n);
      aligned = inl refl;
      filled = inr (inl (omega (arith, n)));
      bytes = replicate-IsBytes 1024 7 (omega arith);
      source_open = (omega arith, tt);
      avail_bound = omega arith;
    }

three_bits-left : 100 * 8 ≤ length (remaining reference_source three_bits)
three_bits-left =
    let r = rest_bytes reference_source three_bits in
    let b = drop {A = ℕ} 8 (replicate 1024 7) in
    omega (
      arith,
      length-append (bits 3 5) (byte_bits r),
      length-bits 3 5,
      length-byte_bits r,
      length-append (take 1016 b) (9 ∷ []),
      length-take 1016 b,
      length-drop {A = ℕ} 8 (replicate 1024 7),
      length-replicate {A = ℕ} 1024 7,
    )

take_bits_lem_example :
    (v : ℕ) × (t' : BitInput reference_source) × (read_bits reference_source three_bits 64
      ≡ ok (v, t'))
    × Took reference_source three_bits t' 64 v
take_bits_lem_example =
    take_bits_lem reference_source three_bits 64 three_bits-IsValid (omega arith) (omega arith)
      (omega (arith, three_bits-left))

take_bit_lem_example :
    (v : ℕ) × (t' : BitInput reference_source) × (read_bit reference_source three_bits ≡ ok (v, t'))
    × Took reference_source three_bits t' 1 v
take_bit_lem_example =
    take_bit_lem reference_source three_bits three_bits-IsValid (omega (arith, three_bits-left))

read_array_lem_example :
    (xs : List ℕ) × (t' : BitInput reference_source) × (read_array reference_source three_bits
        (8 * 100)
      ≡ ok (xs, t'))
    × (length xs ≡ 100)
    × TookBytes reference_source three_bits t' xs
read_array_lem_example =
    read_array_lem reference_source three_bits 100 three_bits-IsValid
      (omega (arith, three_bits-left))

new_bit_input_lem_example :
    (t : BitInput reference_source) × (new_bit_input reference_source (3 ∷ []) 1024 ≡ some t)
    × IsValid reference_source t
    × (remaining reference_source t ≡ byte_bits (3 ∷ []))
    × (bits_consumed reference_source t ≡ 0)
new_bit_input_lem_example =
    new_bit_input_lem reference_source (3 ∷ []) 1024 (omega arith, tt) (omega arith) (omega arith)
      (omega arith)

size_of_1025 : new_bit_input reference_source [] 1025 ≡ none
unfolding new_bit_input
size_of_1025 = refl

-- Two bits are left, and nothing behind them.
abbrev last_bits : BitInput reference_source
last_bits = record {
  closed = false;
  bits_read = 0;
  position = 8;
  avail_bits = 2;
  source = [];
  buffer = replicate 1024 7;
  limit = 8;
  current = 1;
}

last_bits-IsValid : IsValid reference_source last_bits
last_bits-IsValid =
    let n = length-replicate {A = ℕ} 1024 7 in
    record {
      is_open = refl;
      inside = omega arith;
      within = omega (arith, n);
      sized = omega (arith, n);
      whole = omega (arith, n);
      aligned = inl refl;
      filled = inl refl;
      bytes = replicate-IsBytes 1024 7 (omega arith);
      source_open = tt;
      avail_bound = omega arith;
    }

abbrev three : ℕ
three = 3

read_bits_total_example :
    ((0 < three)
      × (three ≤ 64)
      × (three ≤ length (remaining reference_source last_bits))
      × ((v : ℕ) × (t' : BitInput reference_source) × (read_bits reference_source last_bits three
            ≡ ok (v, t'))
          × (length (remaining reference_source last_bits)
              ≡ three + length (remaining reference_source t'))))
    ⊎ (((three ≡ 0) ⊎ ((64 < three) ⊎ (length (remaining reference_source last_bits) < three)))
        × (read_bits reference_source last_bits three ≡ panic))
read_bits_total_example = read_bits_total reference_source last_bits three last_bits-IsValid

has_more_to_read_lem_example :
    (t' : BitInput reference_source) × (((has_more_to_read reference_source three_bits
          ≡ ((true, false), t'))
        × (remaining reference_source three_bits ≢ [])
        × IsValid reference_source t'
        × (remaining reference_source t' ≡ remaining reference_source three_bits))
      ⊎ ((has_more_to_read reference_source three_bits ≡ ((false, true), t'))
          × (remaining reference_source three_bits ≡ [])))
has_more_to_read_lem_example =
    has_more_to_read_lem reference_source three_bits three_bits-IsValid (λ e. absurd (omega arith))

-- A byte is left in the buffer, the last one.
abbrev last_byte : BitInput reference_source
last_byte = record {
  closed = false;
  bits_read = 0;
  position = 8;
  avail_bits = 0;
  source = [];
  buffer = replicate 1024 7;
  limit = 9;
  current = 0;
}

last_byte-IsValid : IsValid reference_source last_byte
last_byte-IsValid =
    let n = length-replicate {A = ℕ} 1024 7 in
    record {
      is_open = refl;
      inside = omega arith;
      within = omega (arith, n);
      sized = omega (arith, n);
      whole = omega (arith, n);
      aligned = inl refl;
      filled = inr (inr refl);
      bytes = replicate-IsBytes 1024 7 (omega arith);
      source_open = tt;
      avail_bound = omega arith;
    }

has_more_to_read-loses_byte_example :
    (t' : BitInput reference_source) × (b : ℕ) × (has_more_to_read reference_source last_byte
      ≡ ((false, true), t'))
    × (remaining reference_source last_byte ≡ bits 8 b)
    × (remaining reference_source t' ≡ [])
has_more_to_read-loses_byte_example =
    has_more_to_read-loses_byte reference_source last_byte last_byte-IsValid refl refl

close_input_lem_example :
    (t' : BitInput reference_source) × (close reference_source three_bits ≡ t')
    × (t'.closed ≡ true)
    × (bits_consumed reference_source t' ≡ bits_consumed reference_source three_bits)
    × (read_bit reference_source t' ≡ panic)
    × (read_bits reference_source t' 3 ≡ panic)
    × (read_array reference_source t' 3 ≡ panic)
    × (has_more_to_read reference_source t' ≡ ((false, true), t'))
    × (close reference_source t' ≡ t')
close_input_lem_example = close_input_lem reference_source three_bits 3 three_bits-IsValid

-- A source that returned three bytes only, though it has more.
abbrev short_buffer : BitInput reference_source
short_buffer = record {
  closed = false;
  bits_read = 0;
  position = 0;
  avail_bits = 4;
  source = replicate 9 255;
  buffer = 1 ∷ 2 ∷ 3 ∷ 0 ∷ 0 ∷ 0 ∷ 0 ∷ 0 ∷ [];
  limit = 3;
  current = 5;
}

array_of_short_buffer : read_array reference_source short_buffer 64 ≡ panic
unfolding read_array read_unaligned read_quads read_words shift_word pull take_word gather
array_of_short_buffer = refl

value_of : Exec (ℕ × BitInput reference_source) → ℕ
value_of (ok (v, t)) = v
value_of panic = 0
value_of stuck = 0

bits_of_short_buffer : value_of (read_bits reference_source short_buffer 64) ≡ 0x5010203FFFFFFFFF
unfolding value_of read_bits read_more_bits pull take_word gather read_from_source after_read
    uint64_of
bits_of_short_buffer = refl
