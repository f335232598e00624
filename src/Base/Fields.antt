-- ===== src/Base/Fields.antt =====
-- Shifts of a field of bits inside a word, and the digits of a number made of two fields.
use Prim.Native.Nat.{ℕ, zero, suc, ◌+◌, ◌*◌, ◌/◌, ◌%◌, ◌^◌, ◌<◌}
use mathlib.Core.Path.{◌≡◌, refl, sym, ap, ap₂, ◌∙◌}
use mathlib.Core.List.{◌∷◌, ◌++◌}
use native.Mathlib.Omega.{arith}
use native.Mathlib.Nat.{
  mod-lt, div-add-mod', mul-div_cancel, mul-div-mul_right, mul-add-div_right,
  mul-lt-mul_of_pos_right,
}
use kanzi_go.Base.Pow.{two_pow_suc, two_pow_pos, two_pow_add, mod_fields, div_fields}
use kanzi_go.Base.Digits.{bits, bits-split}

-- `v << m` in a word of `c + m` bits.
pub shl_wrap : (v c m : ℕ) → v * 2 ^ m % 2 ^ (c + m) ≡ v % 2 ^ c * 2 ^ m
shl_wrap v c m =
    let small : v % 2 ^ c * 2 ^ m < 2 ^ (c + m) = omega (
      arith,
      two_pow_add c m,
      mul-lt-mul_of_pos_right {m = v % 2 ^ c} {n = 2 ^ c} {k = 2 ^ m} (mod-lt v (two_pow_pos c))
          (two_pow_pos m),
    ) in
    let e : v / 2 ^ c * 2 ^ (c + m) + v % 2 ^ c * 2 ^ m ≡ v * 2 ^ m =
      ap (λ p. v / 2 ^ c * p + v % 2 ^ c * 2 ^ m) (two_pow_add c m)
      ∙ omega arith
      ∙ ap (λ x. x * 2 ^ m) (div-add-mod' v (2 ^ c)) in
    ap (λ x. x % 2 ^ (c + m)) (sym e)
    ∙ mod_fields (v / 2 ^ c) (v % 2 ^ c * 2 ^ m) (2 ^ (c + m)) small

pub shr-shl_less : (w k m : ℕ) → w * 2 ^ (k + m) / 2 ^ m ≡ w * 2 ^ k
shr-shl_less w k m =
    ap (λ x. x / 2 ^ m) (ap (λ p. w * p) (two_pow_add k m) ∙ omega arith)
    ∙ mul-div_cancel (w * 2 ^ k) (two_pow_pos m)

pub shr-shl_more : (w r m : ℕ) → w * 2 ^ m / 2 ^ (r + m) ≡ w / 2 ^ r
shr-shl_more w r m =
    ap (λ p. w * 2 ^ m / p) (two_pow_add r m) ∙ mul-div-mul_right w (2 ^ r) (two_pow_pos m)

-- The digits above the field do not count.
pub bits-add : (k u w : ℕ) → bits k (u * 2 ^ k + w) ≡ bits k w
unfolding bits
bits-add zero u w = refl
bits-add (suc k) u w =
    let e : u * 2 ^ suc k + w ≡ 2 * u * 2 ^ k + w =
      ap (λ p. u * p + w) (two_pow_suc k) ∙ omega arith in
    let digit : (2 * u * 2 ^ k + w) / 2 ^ k % 2 ≡ w / 2 ^ k % 2 =
      omega (arith, mul-add-div_right (two_pow_pos k) (2 * u) w) in
    ap (λ x. x / 2 ^ k % 2 ∷ bits k x) e ∙ ap₂ ◌∷◌ digit (bits-add k (2 * u) w)

pub bits-mod : (k v : ℕ) → bits k (v % 2 ^ k) ≡ bits k v
bits-mod k v = sym (bits-add k (v / 2 ^ k) (v % 2 ^ k)) ∙ ap (bits k) (div-add-mod' v (2 ^ k))

-- Two fields, one above the other.
pub bits-fields : (a b q w : ℕ) → w < 2 ^ b → bits (a + b) (q * 2 ^ b + w) ≡ bits a q ++ bits b w
bits-fields a b q w h =
    bits-split a b (q * 2 ^ b + w)
    ∙ ap₂ ◌++◌ (ap (bits a) (div_fields q w (2 ^ b) h)) (bits-add b q w)
