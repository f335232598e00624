-- ===== src/Transform/Sequence/Flags.antt =====
-- The skip flags: clearing one leaves the others.
use kanzi_go.Base.{
  ℕ, ◌+◌, ◌*◌, ◌-◌, ◌/◌, ◌%◌, ◌^◌, ◌<◌, ◌≡◌, ◌≢◌, refl, arith, true, false, bit_and, ◌==◌,
  if◌then◌else◌, shl, Bool, ltb,
}
use kanzi_go.Base.Bits.{agree_below, agree_below→eq}
use kanzi_go.Transform.Sequence.{clear_flag, skipped}

cleared : ℕ → ℕ
unfolding clear_flag
cleared n = bit_and (clear_flag (n / 64) (n / 8 % 8)) (2 ^ (7 - n % 8))

expected : ℕ → ℕ
expected n = if n / 8 % 8 == n % 8 then 0 else bit_and (n / 64) (2 ^ (7 - n % 8))

cleared-expected : (n : ℕ) → n < 16384 → cleared n ≡ expected n
unfolding cleared expected agree_below clear_flag
cleared-expected n h = agree_below→eq cleared expected 16384 refl n h

clear_flag_lem :
    (flags i j : ℕ)
    → flags < 256
    → i < 8
    → j < 8
    → bit_and (clear_flag flags i) (2 ^ (7 - j))
      ≡ (if i == j then 0 else bit_and flags (2 ^ (7 - j)))
clear_flag_lem flags i j f p q =
    let n = flags * 64 + i * 8 + j in
    let a : n / 64 ≡ flags = omega arith in
    let b : n / 8 % 8 ≡ i = omega arith in
    let c : n % 8 ≡ j = omega arith in
    let e = cleared-expected n (omega arith) in unfold cleared expected in rw (a, b, c) at e

pub skipped-clear_self :
    (flags i : ℕ) → flags < 256 → i < 8 → skipped (clear_flag flags i) i ≡ false
unfolding skipped
skipped-clear_self flags i f p =
    let same : (i == i) ≡ true = ground arith in
    let e = rw same at (clear_flag_lem flags i i f p p) in
    let one : shl 1 (7 - i) ≡ 2 ^ (7 - i) = omega arith in rw (one, e)

pub skipped-clear_other :
    (flags i j : ℕ)
    → flags < 256
    → i < 8
    → j < 8
    → i ≢ j
    → skipped (clear_flag flags i) j ≡ skipped flags j
unfolding skipped
skipped-clear_other flags i j f p q h =
    let other : (i == j) ≡ false = ground arith in
    let e = rw other at (clear_flag_lem flags i j f p q) in
    let one : shl 1 (7 - j) ≡ 2 ^ (7 - j) = omega arith in rw (one, e)

to_number : Bool → ℕ
to_number b = if b then 1 else 0

mask_bit : ℕ → ℕ
unfolding skipped to_number
mask_bit i = to_number (skipped 0xFF i)

one : ℕ → ℕ
one i = 1

pub skipped-mask : (i : ℕ) → i < 8 → skipped 0xFF i ≡ true
unfolding mask_bit one agree_below skipped to_number
skipped-mask i h = let e = agree_below→eq mask_bit one 8 refl i h in ground (arith, e)

-- 1 where a cleared byte is a byte.
in_range : ℕ → ℕ
unfolding clear_flag to_number
in_range n = to_number (ltb (clear_flag (n / 8) (n % 8)) 256)

in_range_lem : (n : ℕ) → n < 2048 → in_range n ≡ 1
unfolding in_range one agree_below clear_flag to_number
in_range_lem n h = agree_below→eq in_range one 2048 refl n h

to_number-ltb : (m : ℕ) → to_number (ltb m 256) ≡ 1 → m < 256
unfolding to_number
to_number-ltb m e = ground (arith, e)

pub clear_flag-IsByte : (flags i : ℕ) → flags < 256 → i < 8 → clear_flag flags i < 256
clear_flag-IsByte flags i f p =
    let n = flags * 8 + i in
    let a : n / 8 ≡ flags = omega arith in
    let b : n % 8 ≡ i = omega arith in
    let e = in_range_lem n (omega arith) in
    to_number-ltb (clear_flag flags i) (unfold in_range in rw (a, b) at e)
