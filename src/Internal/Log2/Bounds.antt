-- ===== src/Internal/Log2/Bounds.antt =====
-- The logarithm is exact: `2 ^ k ≤ x < 2 ^ (k + 1)`.
use kanzi_go.Base.{
  ℕ, ◌+◌, ◌-◌, ◌/◌, ◌^◌, ◌≤◌, ◌<◌, ◌≡◌, refl, arith, Bool, true, false, ltb, leb, ◌&&◌, some,
  get_or, get_elem?-eq-get_or, length, u32, Bool-cases, inl, inr, ap, ◌∙◌,
}
use native.Mathlib.Nat.{div-add-mod, mod-lt}
use kanzi_go.Base.Pow.{two_pow_add, two_pow_pos}
use kanzi_go.Base.Bits.{agree_below, agree_below→eq}
use kanzi_go.Internal.Log2.{log2_table, halve_16, halve_8, table_lookup, log2_no_check}

-- `k` is the logarithm of `x`, rounded down.
abbrev pub IsLog2 : ℕ → ℕ → Type 0
IsLog2 x k = (2 ^ k ≤ x) × (x < 2 ^ (k + 1))

log2_of_byte : ℕ → ℕ
log2_of_byte x = get_or log2_table (x - 1) 0

table_check : ℕ → Bool
unfolding log2_of_byte
table_check i =
    let k = log2_of_byte (i + 1) in leb (2 ^ k) (i + 1) && ltb (i + 1) (2 ^ (k + 1)) && ltb k 8

table_flag : ℕ → ℕ
unfolding table_check
table_flag i = elim (table_check i) [ true ↦ 1 | false ↦ 0 ]

table_checked : agree_below table_flag (λ i. 1) 255 ≡ true
unfolding agree_below table_flag log2_table
table_checked = refl

log2_of_byte_lem : (x : ℕ) → 0 < x → x < 256 → IsLog2 x (log2_of_byte x) × (log2_of_byte x < 8)
unfolding table_flag
log2_of_byte_lem x p h =
    let e : x - 1 + 1 ≡ x = omega arith in
    rw e at
      (read (x - 1) (agree_below→eq table_flag (λ i. 1) 255 table_checked (x - 1) (omega arith)))
  where
    read :
        (i : ℕ)
        → table_flag i ≡ 1
        → IsLog2 (i + 1) (log2_of_byte (i + 1)) × (log2_of_byte (i + 1) < 8)
    read i h = ground arith

length-log2_table : length log2_table ≡ 256
unfolding log2_table
length-log2_table = refl

table_lookup_lem :
    (x res : ℕ) → 0 < x → x < 256 → res ≤ 24 → table_lookup (x, res) ≡ some (res + log2_of_byte x)
unfolding table_lookup log2_of_byte
table_lookup_lem x res p h r =
    let e : u32 (x + 2 ^ 32 - 1) ≡ x - 1 = omega arith in
    rw e (
      ground (
        arith,
        get_elem?-eq-get_or log2_table (x - 1) 0 (omega (arith, length-log2_table)),
        log2_of_byte_lem x p h,
      ))

-- The logarithm of `x` is that of `x >> s`, plus `s`.
IsLog2-shift : (x s k : ℕ) → IsLog2 (x / 2 ^ s) k → IsLog2 x (s + k)
IsLog2-shift x s k (lo, hi) =
    grind (
      arith,
      two_pow_add s k,
      two_pow_add s (k + 1),
      div-add-mod x (2 ^ s),
      mod-lt x (two_pow_pos s),
    )

halve_8_lem :
    (x res : ℕ)
    → 0 < x
    → x < 2 ^ 16
    → res ≤ 16
    → (k : ℕ) × (table_lookup (halve_8 (x, res)) ≡ some (res + k)) × IsLog2 x k × (k < 16)
unfolding halve_8
halve_8_lem x res p h r = elim (Bool-cases (leb (2 ^ 8) x)) [
  | inl big ↦ (
    8 + log2_of_byte (x / 2 ^ 8),
    rw big (
        table_lookup_lem (x / 2 ^ 8) (res + 8) (ground arith) (ground arith) (omega arith)
        ∙ ap some (omega arith)),
    IsLog2-shift x 8 _ (log2_of_byte_lem (x / 2 ^ 8) (ground arith) (ground arith)).0,
    ground (arith, log2_of_byte_lem (x / 2 ^ 8)),
  )
  | inr small ↦ (
    log2_of_byte x,
    rw small (table_lookup_lem x res p (ground arith) (omega arith)),
    (log2_of_byte_lem x p (ground arith)).0,
    ground (arith, log2_of_byte_lem x),
  )
]

-- On every nonzero uint32 `Log2NoCheck` reads inside its table, and returns the one `k` below 32
-- with `2 ^ k ≤ x < 2 ^ (k + 1)`.
pub log2_no_check_lem :
    (x : ℕ) → 0 < x → x < 2 ^ 32 → (k : ℕ) × (log2_no_check x ≡ some k) × IsLog2 x k × (k < 32)
unfolding log2_no_check halve_16
log2_no_check_lem x p h = elim (Bool-cases (leb (2 ^ 16) x)) [
  | inl big ↦
      let (k, e, b, l) = halve_8_lem (x / 2 ^ 16) 16 (ground arith) (ground arith) (omega arith) in
      (16 + k, rw big e, IsLog2-shift x 16 k b, omega arith)
  | inr small ↦
      let (k, e, b, l) = halve_8_lem x 0 p (ground arith) (omega arith) in
      (k, rw small (e ∙ ap some (omega arith)), b, omega arith)
]
