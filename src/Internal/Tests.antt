-- ===== src/Internal/Tests.antt =====
-- Concrete runs of the helpers of v2/internal, and their theorems at concrete inputs.
use kanzi_go.Base.{ℕ, ◌<◌, ◌≡◌, refl, arith, some, none}
use kanzi_go.Internal.Log2.{log2_no_check, log2_table}
use kanzi_go.Internal.Log2.Bounds.{IsLog2, log2_no_check_lem}

log2_runs :
    (log2_no_check 1 ≡ some 0)
    × (log2_no_check 255 ≡ some 7)
    × (log2_no_check 70000 ≡ some 16)
    × (log2_no_check 0 ≡ none)
unfolding log2_no_check log2_table
log2_runs = (refl, refl, refl, refl)

log2_no_check_lem_example : (k : ℕ) × (log2_no_check 70000 ≡ some k) × IsLog2 70000 k × (k < 32)
log2_no_check_lem_example = log2_no_check_lem 70000 (omega arith) (omega arith)
