-- ===== src/Transform/Zrlt/Steps.antt =====
-- The parts of `Forward`: the scan of a run, and what is written for a run and for a byte.
use kanzi_go.Base.{
  ℕ, zero, suc, ◌+◌, ◌-◌, ◌/◌, ◌%◌, ◌^◌, ◌≤◌, ◌<◌, ◌≡◌, ◌⊎◌, List, [], ◌∷◌, ◌++◌, leb, ◌==◌,
  if◌then◌else◌, arith, length, length-append, append_assoc, append-nil, Exec, ok, Option, some,
  none, sub64, ◌>>=◌, u32,
}
use kanzi_go.Base.Pow.{lt_two_pow}
use kanzi_go.Base.Masks.{and_mask, or_zero_parts}
use kanzi_go.Internal.Log2.Bounds.{IsLog2, log2_no_check_lem}
use kanzi_go.Transform.Zrlt.{skip_pairs, skip_zeros, write_bits, write_run, write_literal}
use kanzi_go.Base.Digits.{bits, length-bits}
use kanzi_go.Transform.Zrlt.Format.{literal}

-- How many zeros a list begins with, and what follows them.
abbrev pub lead : List ℕ → ℕ
lead [] = 0
lead (c ∷ r) = let n = lead r in if c == 0 then suc n else 0

abbrev pub strip : List ℕ → List ℕ
strip [] = []
strip (c ∷ r) = let t = strip r in if c == 0 then t else c ∷ r

skip_zeros_lem : (l : List ℕ) (i : ℕ) → skip_zeros (i, l) ≡ (i + lead l, strip l)
unfolding skip_zeros
skip_zeros_lem [] i = ground arith
skip_zeros_lem (c ∷ r) i = ground (arith, skip_zeros_lem r (i + 1))

pub skip_pairs_lem : (l : List ℕ) (i : ℕ) → skip_zeros (skip_pairs l i) ≡ (i + lead l, strip l)
unfolding skip_pairs
skip_pairs_lem [] i = skip_zeros_lem [] i
skip_pairs_lem (a ∷ []) i = skip_zeros_lem (a ∷ []) i
skip_pairs_lem (a ∷ b ∷ r) i =
    ground (arith, skip_zeros_lem (a ∷ b ∷ r) i, skip_pairs_lem r (i + 2), or_zero_parts a b)

write_bits_lem :
    (dst_len v k : ℕ) (out : List ℕ)
    → length out + k ≤ dst_len
    → write_bits dst_len v k out ≡ ok (out ++ bits k v)
unfolding write_bits bits
write_bits_lem dst_len v zero out h = ground (arith, append-nil out)
write_bits_lem dst_len v (suc k) out h =
    let d = v / 2 ^ k % 2 in
    ground (
      arith,
      and_mask 1 (v / 2 ^ k),
      write_bits_lem dst_len v k (out ++ (d ∷ [])),
      length-append out (d ∷ []),
      append_assoc out (d ∷ []) (bits k v),
    )

-- The digits of a run length `v` are written whole, or not at all.
pub write_run_lem :
    (dst_end dst_len v : ℕ) (out : List ℕ)
    → 0 < v
    → v ≤ dst_end + 1
    → dst_end + 1 < 2 ^ 32
    → dst_end ≤ dst_len
    → length out ≤ dst_end
    → (k : ℕ) × IsLog2 v k
      × ((write_run dst_end dst_len v out ≡ ok none)
          ⊎ ((write_run dst_end dst_len v out ≡ ok (some (out ++ bits k v)))
              × (length (out ++ bits k v) ≤ dst_end)))
unfolding write_run
write_run_lem dst_end dst_len v out hp hv h32 hc ho =
    let (k, e, b, l) = log2_no_check_lem v hp (omega arith) in
    let same : u32 v ≡ v = omega arith in
    let small : k ≤ dst_end = omega (arith, lt_two_pow k, b.0) in
    (k, b, rw (same, e) (by_room k small))
  where
    by_room :
        (k : ℕ)
        → k ≤ dst_end
        → let written = write_bits dst_len v k out >>= λ o. ok (some o) in
          let r : Exec (Option (List ℕ)) =
            if leb (sub64 dst_end k) (length out) then ok none else written in
          (r ≡ ok none) ⊎ ((r ≡ ok (some (out ++ bits k v))) × (length (out ++ bits k v) ≤ dst_end))
    by_room k h =
        ground
          (arith, write_bits_lem dst_len v k out, length-append out (bits k v), length-bits k v)

pub write_literal_lem :
    (dst_end dst_len c : ℕ) (out : List ℕ)
    → 0 < dst_end
    → dst_end < 2 ^ 32
    → c < 256
    → dst_end ≤ dst_len
    → length out ≤ dst_end
    → (write_literal dst_end dst_len c out ≡ ok none)
      ⊎ ((write_literal dst_end dst_len c out ≡ ok (some (out ++ literal c)))
          × (length (out ++ literal c) ≤ dst_end))
unfolding write_literal
write_literal_lem dst_end dst_len c out hp h32 h hc ho = ground (
  arith,
  length-append out (0xFF ∷ []),
  length-append out ((c + 1) ∷ []),
  length-append (out ++ (0xFF ∷ [])) ((c - 0xFE) ∷ []),
  append_assoc out (0xFF ∷ []) ((c - 0xFE) ∷ []),
)
