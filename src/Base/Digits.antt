-- ===== src/Base/Digits.antt =====
-- Binary digits of a number, highest first.
use Prim.Native.Nat.{ℕ, zero, suc, ◌+◌, ◌*◌, ◌/◌, ◌%◌, ◌^◌}
use mathlib.Core.Path.{◌≡◌, refl, sym, ap, ap₂, ◌∙◌}
use mathlib.Core.List.{List, [], ◌∷◌, ◌++◌, append_assoc}
use native.Mathlib.Omega.{arith}
use kanzi_go.Base.Lists.{length}
use kanzi_go.Base.Pow.{two_pow_suc, two_pow_add, mod_two_pow_suc}
use native.Mathlib.Nat.{div-div-eq-div-mul}

-- The `k` lowest digits of `v`.
unfoldable pub bits : ℕ → ℕ → List ℕ
bits zero v = []
bits (suc k) v = v / 2 ^ k % 2 ∷ bits k v

pub length-bits : (k v : ℕ) → length (bits k v) ≡ k
unfolding bits
length-bits zero v = omega arith
length-bits (suc k) v = omega (arith, length-bits k v)

pub no_bits : (k v : ℕ) → k ≡ 0 → bits k v ≡ []
unfolding bits
no_bits k v e = ap (λ n. bits n v) e

-- The digits of a sequence of bytes.
abbrev pub byte_bits : List ℕ → List ℕ
byte_bits [] = []
byte_bits (b ∷ bs) = bits 8 b ++ byte_bits bs

pub byte_bits-append : (xs ys : List ℕ) → byte_bits (xs ++ ys) ≡ byte_bits xs ++ byte_bits ys
byte_bits-append [] ys = refl
byte_bits-append (x ∷ xs) ys = ap (λ r. bits 8 x ++ r) (byte_bits-append xs ys) ∙ flip
  where
    flip : bits 8 x ++ (byte_bits xs ++ byte_bits ys) ≡ (bits 8 x ++ byte_bits xs) ++ byte_bits ys
    flip = rw append_assoc

-- The number whose digits, behind those of `acc`, are given.
unfoldable pub from_bits : ℕ → List ℕ → ℕ
from_bits acc [] = acc
from_bits acc (b ∷ bs) = from_bits (acc * 2 + b) bs

pub from_bits-bits : (k v acc : ℕ) → from_bits acc (bits k v) ≡ acc * 2 ^ k + v % 2 ^ k
unfolding bits from_bits
from_bits-bits zero v acc = omega arith
from_bits-bits (suc k) v acc = omega (
  arith,
  from_bits-bits k v (acc * 2 + v / 2 ^ k % 2),
  mod_two_pow_suc v k,
  ap (λ (t : ℕ). acc * t) (two_pow_suc k),
)

-- The upper and the lower digits.
pub bits-split : (a b v : ℕ) → bits (a + b) v ≡ bits a (v / 2 ^ b) ++ bits b v
unfolding bits
bits-split zero b v = ap (λ k. bits k v) (omega arith)
bits-split (suc a) b v =
    let e : suc a + b ≡ suc (a + b) = omega arith in
    let comm : a + b ≡ b + a = omega arith in
    let digit : v / 2 ^ (a + b) ≡ v / 2 ^ b / 2 ^ a =
      ap (λ k. v / 2 ^ k) comm
      ∙ ap (λ m. v / m) (two_pow_add b a)
      ∙ sym (div-div-eq-div-mul v (2 ^ b) (2 ^ a)) in
    ap (λ k. bits k v) e ∙ ap₂ ◌∷◌ (ap (λ d. d % 2) digit) (bits-split a b v)

-- A byte's digits are those of any number that ends in it.
pub bits-mod_256 : (v : ℕ) → bits 8 (v % 256) ≡ bits 8 v
unfolding bits
bits-mod_256 v = ap₂ ◌∷◌ (omega arith) (
    ap₂ ◌∷◌ (omega arith) (
      ap₂ ◌∷◌ (omega arith) (
        ap₂ ◌∷◌ (omega arith) (
          ap₂ ◌∷◌ (omega arith)
            (ap₂ ◌∷◌ (omega arith) (ap₂ ◌∷◌ (omega arith) (ap₂ ◌∷◌ (omega arith) refl)))))))
