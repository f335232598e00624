-- ===== src/Base/Pow.antt =====
-- Powers of two, and quotient and remainder by a variable.
use Prim.Native.Nat.{ℕ, zero, suc, ◌+◌, ◌*◌, ◌/◌, ◌%◌, ◌^◌, ◌≤◌, ◌<◌}
use mathlib.Core.Path.{◌≡◌, ap}
use native.Mathlib.Nat.{
  pow-suc, one-le-pow, pow-le-pow_right, add-zero, mul-add-mod_self_right, mod-eq_of_lt,
  mul-add-div_right, div-eq_of_lt, div-add-mod', mod-lt,
}
use native.Mathlib.Omega.{arith}

pub two_pow_suc : (n : ℕ) → 2 ^ suc n ≡ 2 * 2 ^ n
two_pow_suc n = omega (arith, pow-suc 2 n)

pub two_pow_pos : (n : ℕ) → 0 < 2 ^ n
two_pow_pos n = one-le-pow n 2 (omega arith)

pub two_pow_mono : (m n : ℕ) → m ≤ n → 2 ^ m ≤ 2 ^ n
two_pow_mono m n h = pow-le-pow_right {n = 2} (omega arith) h

pub two_pow_add : (a b : ℕ) → 2 ^ (a + b) ≡ 2 ^ a * 2 ^ b
two_pow_add a zero = rw add-zero (omega arith)
two_pow_add a (suc b) =
    let e : a + suc b ≡ suc (a + b) = omega arith in
    rw e (omega (arith, two_pow_suc (a + b), two_pow_add a b, step))
  where
    step : 2 ^ a * 2 ^ suc b ≡ 2 * (2 ^ a * 2 ^ b)
    step = omega (arith, ap (λ (t : ℕ). 2 ^ a * t) (two_pow_suc b))

pub mod_fields : (q r m : ℕ) → r < m → (q * m + r) % m ≡ r
mod_fields q r m h = omega (arith, mul-add-mod_self_right q m r, mod-eq_of_lt h)

pub div_fields : (q r m : ℕ) → r < m → (q * m + r) / m ≡ q
div_fields q r m h = omega (arith, mul-add-div_right {m = m} (omega arith) q r, div-eq_of_lt h)

-- The remainder by `2 * m` is that of the half by `m`, with the lowest digit.
pub mod_double : (x m : ℕ) → 0 < m → x % (2 * m) ≡ 2 * (x / 2 % m) + x % 2
mod_double x m h =
    let low : ℕ = 2 * (x / 2 % m) + x % 2 in
    let e : x / 2 / m * (2 * m) + low ≡ x = omega (arith, div-add-mod' (x / 2) m) in
    omega (
      arith,
      ap (λ (t : ℕ). t % (2 * m)) e,
      mod_fields (x / 2 / m) low (2 * m) (omega (arith, mod-lt (x / 2) h)),
    )

pub lt_two_pow : (k : ℕ) → k < 2 ^ k
lt_two_pow zero = omega arith
lt_two_pow (suc k) = omega (arith, lt_two_pow k, two_pow_suc k)

pub digit_mul_le : (d p : ℕ) → d < 2 → d * p ≤ p
digit_mul_le zero p h = omega arith
digit_mul_le (suc zero) p h = omega arith
digit_mul_le (suc (suc d)) p h = absurd (omega arith)

-- The remainder by `2 ^ suc k`, from the digit of weight `2 ^ k`.
pub mod_two_pow_suc : (v k : ℕ) → v % 2 ^ suc k ≡ v / 2 ^ k % 2 * 2 ^ k + v % 2 ^ k
mod_two_pow_suc v k =
    let low : ℕ = v / 2 ^ k % 2 * 2 ^ k + v % 2 ^ k in
    let bound : v % 2 ^ k < 2 ^ k = mod-lt v (two_pow_pos k) in
    let one : v / 2 ^ k % 2 * 2 ^ k ≤ 2 ^ k = digit_mul_le _ (2 ^ k) (omega arith) in
    let e : v / 2 ^ k / 2 * 2 ^ suc k + low ≡ v = omega (
      arith,
      div-add-mod' v (2 ^ k),
      ap (λ (t : ℕ). t * 2 ^ k) (div-add-mod' (v / 2 ^ k) 2),
      ap (λ (t : ℕ). v / 2 ^ k / 2 * t) (two_pow_suc k),
    ) in
    omega (
      arith,
      ap (λ (t : ℕ). t % 2 ^ suc k) e,
      mod_fields (v / 2 ^ k / 2) low (2 ^ suc k) (omega (arith, two_pow_suc k)),
    )

pub le-mul_two_pow : (a k : ℕ) → a ≤ a * 2 ^ k
le-mul_two_pow a k = grind (arith, two_pow_pos k)
