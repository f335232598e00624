-- ===== src/Base/Xor.antt =====
-- `^` shifted down, and what it says of the parts above a bit.
use Prim.Native.Nat.{
  ℕ, zero, suc, ◌+◌, ◌*◌, ◌/◌, ◌%◌, ◌^◌, ◌≤◌, ◌<◌, bit_xor, bit_xor-bitwise, differ,
}
use mathlib.Core.Path.{◌≡◌, refl, ap, ap₂, ◌∙◌, sym}
use mathlib.Core.Logic.{◌↔◌}
use native.Mathlib.Omega.{arith}
use native.Mathlib.Nat.{div-div-eq-div-mul, div-eq_of_lt, lt-div-mul-add}
use kanzi_go.Base.Pow.{two_pow_suc, two_pow_pos}
use kanzi_go.Base.Masks.{lowest_digit}

differ_digits : (a b : ℕ) → a < 2 → b < 2 → differ a b ≡ (a + b) % 2
differ_digits zero zero h k = refl
differ_digits zero (suc zero) h k = refl
differ_digits (suc zero) zero h k = refl
differ_digits (suc zero) (suc zero) h k = refl
differ_digits a (suc (suc b)) h k = absurd (omega arith)
differ_digits (suc (suc a)) b h k = absurd (omega arith)

pub xor_step : (x y : ℕ) → (x + y) % 2 + 2 * bit_xor (x / 2) (y / 2) ≡ bit_xor x y
xor_step zero y = simp bit_xor-bitwise (omega arith)
xor_step (suc x) y = simp bit_xor-bitwise (
    omega (
      arith,
      lowest_digit (λ b. b) differ x y,
      differ_digits (suc x % 2) (y % 2) (omega arith) (omega arith),
    ))

pub xor_shift : (k x y : ℕ) → bit_xor x y / 2 ^ k ≡ bit_xor (x / 2 ^ k) (y / 2 ^ k)
xor_shift zero x y =
    let a : x / 2 ^ 0 ≡ x = omega arith in
    let b : y / 2 ^ 0 ≡ y = omega arith in rw (a, b) (omega arith)
xor_shift (suc k) x y =
    let s = two_pow_suc k in
    let halve : (z : ℕ) → z / 2 ^ suc k ≡ z / 2 / 2 ^ k =
      λ z. ap (λ m. z / m) s ∙ sym (div-div-eq-div-mul z 2 (2 ^ k)) in
    let half : bit_xor x y / 2 ≡ bit_xor (x / 2) (y / 2) = omega (arith, xor_step x y) in
    halve (bit_xor x y)
    ∙ ap (λ z. z / 2 ^ k) half
    ∙ xor_shift k (x / 2) (y / 2)
    ∙ ap₂ bit_xor (sym (halve x)) (sym (halve y))

xor_self_below : (n x : ℕ) → x ≤ n → bit_xor x x ≡ 0
xor_self_below zero zero h = refl
xor_self_below zero (suc x) h = absurd (omega arith)
xor_self_below (suc n) zero h = refl
xor_self_below (suc n) (suc x) h =
    omega (arith, xor_step (suc x) (suc x), xor_self_below n (suc x / 2) (omega arith))

xor_zero_below : (n x y : ℕ) → x ≤ n → y ≤ n → bit_xor x y ≡ 0 → x ≡ y
xor_zero_below zero x y h k e = omega arith
xor_zero_below (suc n) x y h k e =
    let s = xor_step x y in
    let rest : bit_xor (x / 2) (y / 2) ≡ 0 = omega (arith, s, e) in
    omega (arith, s, e, xor_zero_below n (x / 2) (y / 2) (omega arith) (omega arith) rest)

-- `x ^ y < 1 << k`: the two numbers agree from bit `k` on.
pub xor_lt_iff : (k x y : ℕ) → (bit_xor x y < 2 ^ k) ↔ (x / 2 ^ k ≡ y / 2 ^ k)
xor_lt_iff k x y = (
  λ h.
      let zero_high : bit_xor x y / 2 ^ k ≡ 0 = div-eq_of_lt h in
      let e = sym (xor_shift k x y) ∙ zero_high in
      xor_zero_below (x / 2 ^ k + y / 2 ^ k) (x / 2 ^ k) (y / 2 ^ k) (omega arith) (omega arith) e,
  λ e.
      let z : bit_xor x y / 2 ^ k ≡ 0 =
        xor_shift k x y
        ∙ ap (λ q. bit_xor q (y / 2 ^ k)) e
        ∙ xor_self_below (y / 2 ^ k) (y / 2 ^ k) (omega arith) in
      omega (arith, lt-div-mul-add {a = bit_xor x y} (two_pow_pos k), ap (λ q. q * 2 ^ k) z),
)
