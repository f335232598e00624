-- ===== src/Bitstream/Output/Words.antt =====
-- Bits moved inside a word of 64.
use kanzi_go.Base.{
  ℕ, ◌+◌, ◌-◌, ◌*◌, ◌/◌, ◌%◌, ◌^◌, ◌<◌, ◌≤◌, ◌≡◌, sym, ap, ap₂, ◌∙◌, arith, [], ◌∷◌, ◌++◌, u64, shr,
  shl, bit_or,
}
use kanzi_go.Base.Pow.{two_pow_pos, two_pow_add, two_pow_mono, digit_mul_le}
use kanzi_go.Base.Masks.{or_fields}
use kanzi_go.Base.Fields.{shl_wrap, shr-shl_less, shr-shl_more, bits-add, bits-mod}
use kanzi_go.Base.Digits.{bits, bits-split}
use native.Mathlib.Nat.{
  mod-lt, mod-eq_of_lt, div-lt_iff_lt-mul, mul-lt-mul_of_pos_right, div-add-mod',
}

-- The lowest `count` bits of `value`, at the top of a word.
pub at_top :
    (value count : ℕ)
    → count ≤ 64
    → u64 (shl value (64 - count)) ≡ value % 2 ^ count * 2 ^ (64 - count)
at_top value count h =
    let e : 64 ≡ count + (64 - count) = omega arith in
    ap (λ n. value * 2 ^ (64 - count) % 2 ^ n) e ∙ shl_wrap value count (64 - count)

pub mod-bound : (value count n : ℕ) → count ≡ n → value % 2 ^ count < 2 ^ n
mod-bound value count n e =
    let p = ap (λ m. 2 ^ m) e in omega (arith, p, mod-lt value (two_pow_pos count))

-- `value` with its lowest `count` bits moved to the free ones of `current`.
pub joined_less :
    (q a count value k : ℕ)
    → a ≤ 64
    → a ≡ count + k
    → bit_or (q * 2 ^ a) (shr (u64 (shl value (64 - count))) (64 - a))
      ≡ (q * 2 ^ count + value % 2 ^ count) * 2 ^ k
joined_less q a count value k h e =
    let w = value % 2 ^ count in
    let n : 64 - count ≡ k + (64 - a) = omega arith in
    let shifted : shr (u64 (shl value (64 - count))) (64 - a) ≡ w * 2 ^ k =
      ap (λ x. shr x (64 - a)) (at_top value count (omega arith) ∙ ap (λ n. w * 2 ^ n) n)
      ∙ shr-shl_less w k (64 - a) in
    let p : 2 ^ a ≡ 2 ^ count * 2 ^ k = ap (λ n. 2 ^ n) e ∙ two_pow_add count k in
    let small : w * 2 ^ k < 2 ^ a = omega (
      arith,
      p,
      mul-lt-mul_of_pos_right {m = w} {n = 2 ^ count} {k = 2 ^ k} (mod-lt value (two_pow_pos count))
          (two_pow_pos k),
    ) in
    ap (bit_or (q * 2 ^ a)) shifted
    ∙ or_fields a q (w * 2 ^ k) small
    ∙ ap (λ x. q * x + w * 2 ^ k) p
    ∙ omega arith

pub top_bound : (w a r : ℕ) → w < 2 ^ (a + r) → w / 2 ^ r < 2 ^ a
top_bound w a r h = (div-lt_iff_lt-mul (two_pow_pos r)).1 (omega (arith, two_pow_add a r))

pub joined_more :
    (q a count value r : ℕ)
    → count ≤ 64
    → count ≡ a + r
    → bit_or (q * 2 ^ a) (shr (u64 (shl value (64 - count))) (64 - a))
      ≡ q * 2 ^ a + value % 2 ^ count / 2 ^ r
joined_more q a count value r h e =
    let w = value % 2 ^ count in
    let n : 64 - a ≡ r + (64 - count) = omega arith in
    let shifted : shr (u64 (shl value (64 - count))) (64 - a) ≡ w / 2 ^ r =
      ap₂ shr (at_top value count h) n ∙ shr-shl_more w r (64 - count) in
    ap (bit_or (q * 2 ^ a)) shifted
    ∙ or_fields a q (w / 2 ^ r) (top_bound w a r (mod-bound value count (a + r) e))

pub one_more :
    (q a b : ℕ)
    → 1 < a
    → a ≤ 64
    → b < 2
    → bit_or (q * 2 ^ a) (u64 (shl b (a - 1))) ≡ (q * 2 ^ 1 + b) * 2 ^ (a - 1)
one_more q a b h k l =
    let e : a ≡ (a - 1) + 1 = omega arith in
    let p : 2 ^ a ≡ 2 ^ (a - 1) * 2 = ap (λ n. 2 ^ n) e ∙ two_pow_add (a - 1) 1 in
    let small : b * 2 ^ (a - 1) < 2 ^ a =
      omega (arith, p, digit_mul_le b (2 ^ (a - 1)) l, two_pow_pos (a - 1)) in
    let wrap : u64 (shl b (a - 1)) ≡ b * 2 ^ (a - 1) =
      mod-eq_of_lt (omega (arith, small, two_pow_mono a 64 k)) in
    ap (bit_or (q * 2 ^ a)) wrap
    ∙ or_fields a q (b * 2 ^ (a - 1)) small
    ∙ ap (λ x. q * x + b * 2 ^ (a - 1)) p
    ∙ omega arith

pub last_one : (q a b : ℕ) → a ≡ 1 → b < 2 → bit_or (q * 2 ^ a) b ≡ q * 2 ^ a + b
last_one q a b e h = or_fields a q b (let p = ap (λ n. 2 ^ n) e in omega arith)

pub bits_one : (a b : ℕ) → a ≡ 1 → b < 2 → bits a b ++ bits 0 0 ≡ b ∷ []
unfolding bits
bits_one a b e h = ap (λ n. bits n b ++ []) e ∙ ap (λ x. x ∷ []) (omega arith)

pub bit_one : (b : ℕ) → b < 2 → bits 1 b ≡ b ∷ []
unfolding bits
bit_one b h = ap (λ x. x ∷ []) (omega arith)

pub two_words :
    (value count a r : ℕ)
    → count ≡ a + r
    → bits a (value % 2 ^ count / 2 ^ r) ++ bits r (value % 2 ^ r) ≡ bits count value
two_words value count a r e =
    let w = value % 2 ^ count in
    let p : 2 ^ count ≡ 2 ^ a * 2 ^ r = ap (λ n. 2 ^ n) e ∙ two_pow_add a r in
    let whole : value / 2 ^ count * 2 ^ a * 2 ^ r + w ≡ value =
      omega (arith, ap (λ x. value / 2 ^ count * x) p, div-add-mod' value (2 ^ count)) in
    let low : bits r value ≡ bits r w =
      ap (bits r) (sym whole) ∙ bits-add r (value / 2 ^ count * 2 ^ a) w in
    ap (λ x. bits a (w / 2 ^ r) ++ x) (bits-mod r value ∙ low)
    ∙ sym (bits-split a r w)
    ∙ ap (λ n. bits n w) (sym e)
    ∙ bits-mod count value
