-- ===== src/Internal/Jobs/Tests.antt =====
-- A concrete run of ComputeJobsPerTask, and its theorem at a concrete input.
use kanzi_go.Base.{ℕ, ◌<◌, ◌≡◌, refl, arith, List, [], ◌∷◌, ok, length}
use kanzi_go.Internal.Jobs.{shared, no_jobs, distribute, compute_jobs_per_task}
use kanzi_go.Internal.Jobs.Shares.{sum, IsEven, compute_jobs_per_task_lem}

ten_for_four : compute_jobs_per_task (0 ∷ 0 ∷ 0 ∷ 0 ∷ []) 10 4 ≡ ok (shared (3 ∷ 3 ∷ 2 ∷ 2 ∷ []))
unfolding compute_jobs_per_task distribute
ten_for_four = refl

none_for_four : compute_jobs_per_task (0 ∷ 0 ∷ 0 ∷ 0 ∷ []) 0 4 ≡ ok (no_jobs (0 ∷ 0 ∷ 0 ∷ 0 ∷ []))
unfolding compute_jobs_per_task
none_for_four = refl

compute_jobs_per_task_lem_example :
    (ys : List ℕ) × (compute_jobs_per_task (0 ∷ 0 ∷ 0 ∷ 0 ∷ []) 10 4 ≡ ok (shared ys))
    × (length ys ≡ 4)
    × (sum ys ≡ 10)
    × ((q : ℕ) × (0 < q) × IsEven q ys)
compute_jobs_per_task_lem_example =
    compute_jobs_per_task_lem (0 ∷ 0 ∷ 0 ∷ 0 ∷ []) 10 4 (omega arith) (omega arith) refl
