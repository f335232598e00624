-- ===== src/Base/Masks.antt =====
-- `&` with a mask of low ones, and `|` of a multiple of a power with a remainder, at every width.
-- The native operations mean a recursion on binary digits with fuel; one step of it is proved first.
use Prim.Native.Nat.{
  ℕ, zero, suc, ◌+◌, ◌-◌, ◌*◌, ◌/◌, ◌%◌, ◌^◌, ◌≤◌, ◌<◌, min, max, bit_and, bit_or, digits, bitwise,
  bit_and-bitwise, bit_or-bitwise,
}
use mathlib.Core.Path.{◌≡◌, refl, sym, ap, ap₂, ◌∙◌}
use native.Mathlib.Nat.{div-div-eq-div-mul, mul_left_comm}
use native.Mathlib.Omega.{arith}
use kanzi_go.Base.Pow.{two_pow_suc, two_pow_pos, mod_double}

module _ (stop : ℕ → ℕ) (digit : ℕ → ℕ → ℕ) where
  -- Any fuel that reaches the number gives the same digits.
  same_digits : (a b n m : ℕ) → a ≤ n → a ≤ m → digits stop digit n a b ≡ digits stop digit m a b
  same_digits zero b zero zero hn hm = refl
  same_digits zero b zero (suc m) hn hm = refl
  same_digits zero b (suc n) zero hn hm = refl
  same_digits zero b (suc n) (suc m) hn hm = refl
  same_digits (suc a) b zero m hn hm = absurd (omega arith)
  same_digits (suc a) b (suc n) zero hn hm = absurd (omega arith)
  same_digits (suc a) b (suc n) (suc m) hn hm =
      rw (same_digits (suc a / 2) (b / 2) n m (omega arith) (omega arith))

  pub lowest_digit :
      (x b : ℕ)
      → digit (suc x % 2) (b % 2) + 2 * bitwise stop digit (suc x / 2) (b / 2)
        ≡ bitwise stop digit (suc x) b
  lowest_digit x b =
      omega (arith, same_digits (suc x / 2) (b / 2) (suc x / 2) x (omega arith) (omega arith))

pub or_step : (x y : ℕ) → max (x % 2) (y % 2) + 2 * bit_or (x / 2) (y / 2) ≡ bit_or x y
or_step zero y = simp bit_or-bitwise (omega arith)
or_step (suc x) y = simp bit_or-bitwise (lowest_digit (λ z. z) max x y)

pub and_step : (x y : ℕ) → min (x % 2) (y % 2) + 2 * bit_and (x / 2) (y / 2) ≡ bit_and x y
and_step zero y = simp bit_and-bitwise (omega arith)
and_step (suc x) y = simp bit_and-bitwise (lowest_digit (λ z. 0) min x y)

and_zero_below : (n a : ℕ) → a ≤ n → bit_and a 0 ≡ 0
and_zero_below n zero h = refl
and_zero_below zero (suc a) h = absurd (omega arith)
and_zero_below (suc n) (suc a) h =
    omega (arith, and_step (suc a) 0, and_zero_below n (suc a / 2) (omega arith))

or_zero_below : (n a : ℕ) → a ≤ n → bit_or a 0 ≡ a
or_zero_below n zero h = refl
or_zero_below zero (suc a) h = absurd (omega arith)
or_zero_below (suc n) (suc a) h =
    omega (arith, or_step (suc a) 0, or_zero_below n (suc a / 2) (omega arith))

-- `x & (1<<k - 1)` is `x % (1<<k)`.
pub and_mask : (k x : ℕ) → bit_and x (2 ^ k - 1) ≡ x % 2 ^ k
and_mask zero x = omega (arith, and_zero_below x x (omega arith))
and_mask (suc k) x = omega (
  arith,
  and_step x (2 ^ suc k - 1),
  and_mask k (x / 2),
  mod_double x (2 ^ k) (two_pow_pos k),
  two_pow_suc k,
  two_pow_pos k,
  ap (λ (t : ℕ). bit_and (x / 2) t) half,
  ap (λ (t : ℕ). x % t) (two_pow_suc k),
)
  where
    half : (2 ^ suc k - 1) / 2 ≡ 2 ^ k - 1
    half = omega (arith, two_pow_suc k, two_pow_pos k)

-- `(q<<k) | r` is a sum when `r` fits `k` bits.
pub or_fields : (k q r : ℕ) → r < 2 ^ k → bit_or (q * 2 ^ k) r ≡ q * 2 ^ k + r
or_fields zero q r h = ground (arith, or_zero_below q q (omega arith))
or_fields (suc k) q r h = ground (
  arith,
  or_step (q * 2 ^ suc k) r,
  ap (λ (t : ℕ). q * t) (two_pow_suc k),
  two_pow_suc k,
  or_fields k q (r / 2) (omega (arith, two_pow_suc k)),
)

-- `a | b == 0` tests both.
or_zero_parts_below : (n a b : ℕ) → a ≤ n → b ≤ n → bit_or a b ≡ 0 → (a ≡ 0) × (b ≡ 0)
or_zero_parts_below zero a b ha hb h = omega arith
or_zero_parts_below (suc n) a b ha hb h =
    let (p, q) = or_zero_parts_below n (a / 2) (b / 2) (omega arith) (omega arith) halves in
    (omega (arith, or_step a b), omega (arith, or_step a b))
  where
    halves : bit_or (a / 2) (b / 2) ≡ 0
    halves = omega (arith, or_step a b)

pub or_zero_parts : (a b : ℕ) → bit_or a b ≡ 0 → (a ≡ 0) × (b ≡ 0)
or_zero_parts a b h = or_zero_parts_below (a + b) a b (omega arith) (omega arith) h

or_comm_below : (n a b : ℕ) → a ≤ n → b ≤ n → bit_or a b ≡ bit_or b a
or_comm_below zero zero zero ha hb = refl
or_comm_below zero (suc a) b ha hb = absurd (omega arith)
or_comm_below zero zero (suc b) ha hb = absurd (omega arith)
or_comm_below (suc n) a b ha hb =
    omega
      (arith, or_step a b, or_step b a, or_comm_below n (a / 2) (b / 2) (omega arith) (omega arith))

pub or_comm : (a b : ℕ) → bit_or a b ≡ bit_or b a
or_comm a b = or_comm_below (a + b) a b (omega arith) (omega arith)

-- The same with the high part second: `r | (q<<k)`.
pub or_fields_high : (k q r : ℕ) → r < 2 ^ k → bit_or r (q * 2 ^ k) ≡ r + q * 2 ^ k
or_fields_high k q r h = omega (arith, or_comm r (q * 2 ^ k), or_fields k q r h)

-- `x | (1<<k - 1)` sets the lowest `k` bits.
pub or_ones : (k x : ℕ) → bit_or x (2 ^ k - 1) ≡ x / 2 ^ k * 2 ^ k + (2 ^ k - 1)
or_ones zero x = omega (arith, or_zero_below x x (omega arith))
or_ones (suc k) x =
    let s = two_pow_suc k in
    let p = two_pow_pos k in
    let half : (2 ^ suc k - 1) / 2 ≡ 2 ^ k - 1 = omega (arith, s, p) in
    let shifted : x / 2 ^ suc k ≡ x / 2 / 2 ^ k =
      ap (λ (t : ℕ). x / t) s ∙ sym (div-div-eq-div-mul x 2 (2 ^ k)) in
    let double : x / 2 ^ suc k * 2 ^ suc k ≡ 2 * (x / 2 / 2 ^ k * 2 ^ k) =
      ap₂ ◌*◌ shifted s ∙ mul_left_comm (x / 2 / 2 ^ k) 2 (2 ^ k) in
    omega (
      arith,
      or_step x (2 ^ suc k - 1),
      or_ones k (x / 2),
      ap (λ (t : ℕ). bit_or (x / 2) t) half,
      double,
      s,
      p,
    )
