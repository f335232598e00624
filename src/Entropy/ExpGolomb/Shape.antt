-- ===== src/Entropy/ExpGolomb/Shape.antt =====
-- The digits of a code: zeros, a one, and the value behind it.
use kanzi_go.Base.{
  ℕ, zero, suc, ◌+◌, ◌*◌, ◌/◌, ◌%◌, ◌^◌, ◌<◌, ◌≡◌, refl, ap, ap₂, ◌∙◌, ◌∷◌, ◌++◌, replicate, arith,
}
use kanzi_go.Base.Pow.{two_pow_suc, two_pow_pos, two_pow_mono, div_fields}
use kanzi_go.Base.Digits.{bits}
use native.Mathlib.Nat.{div-eq_of_lt, mul-add-div_right}

-- Digits above those of a small number are zeros.
bits-small : (k n v : ℕ) → v < 2 ^ n → bits (k + n) v ≡ replicate k 0 ++ bits n v
unfolding bits
bits-small zero n v h = ap (λ m. bits m v) (omega arith)
bits-small (suc k) n v h = ap (λ m. bits m v) count ∙ ap₂ ◌∷◌ top (bits-small k n v h)
  where
    count : suc k + n ≡ suc (k + n)
    count = omega arith

    top : v / 2 ^ (k + n) % 2 ≡ 0
    top = omega (
      arith,
      div-eq_of_lt {n = v} {m = 2 ^ (k + n)}
          (omega (arith, h, two_pow_mono n (k + n) (omega arith))),
    )

-- The digits below `2 ^ i` do not see a multiple of it.
bits-low : (i m v : ℕ) → bits i (m * 2 ^ i + v) ≡ bits i v
unfolding bits
bits-low zero m v = refl
bits-low (suc i) m v = ap₂ ◌∷◌ digit (ap (bits i) split ∙ bits-low i (2 * m) v)
  where
    split : m * 2 ^ suc i + v ≡ 2 * m * 2 ^ i + v
    split = omega (arith, ap (λ (t : ℕ). m * t) (two_pow_suc i))

    digit : (m * 2 ^ suc i + v) / 2 ^ i % 2 ≡ v / 2 ^ i % 2
    digit = rw (split, mul-add-div_right {m = 2 ^ i} (two_pow_pos i) (2 * m) v) (omega arith)

bits-top : (j low : ℕ) → low < 2 ^ j → bits (suc j) (2 ^ j + low) ≡ 1 ∷ bits j low
unfolding bits
bits-top j low h = ap₂ ◌∷◌ digit (ap (bits j) one ∙ bits-low j 1 low)
  where
    one : 2 ^ j + low ≡ 1 * 2 ^ j + low
    one = omega arith

    digit : (2 ^ j + low) / 2 ^ j % 2 ≡ 1
    digit = rw (one, div_fields 1 low (2 ^ j) h) refl

pub bits-code :
    (k j low : ℕ) → low < 2 ^ j → bits (k + suc j) (2 ^ j + low) ≡ replicate k 0 ++ (1 ∷ bits j low)
bits-code k j low h =
    bits-small k (suc j) (2 ^ j + low) (omega (arith, two_pow_suc j))
    ∙ ap (λ d. replicate k 0 ++ d) (bits-top j low h)
