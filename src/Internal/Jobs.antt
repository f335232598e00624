-- ===== src/Internal/Jobs.antt =====
-- ComputeJobsPerTask of v2/internal/Global.go.
pub mod Shares
mod Tests
use kanzi_go.Base.{
  ℕ, zero, suc, ◌+◌, ◌-◌, ◌*◌, ◌/◌, List, leb, ltb, ◌==◌, if◌then◌else◌, length, replicate, set,
  get_or, Exec, ok, panic, ◌>>=◌,
}

pub data Outcome : Type 0 where
  no_tasks no_jobs : List ℕ → Outcome
  shared : List ℕ → Outcome

-- `jobsPerTask[n]++`; an index out of range panics.
abbrev pub increment : ℕ → List ℕ → Exec (List ℕ)
increment n xs = if ltb n (length xs) then ok (set xs n (get_or xs n 0 + 1)) else panic

-- `for r != 0`
unfoldable pub distribute : (tasks r n : ℕ) → List ℕ → Exec (List ℕ)
distribute tasks zero n xs = ok xs
distribute tasks (suc r) n xs = do
  xs' ← increment n xs
  distribute tasks r (if n + 1 == tasks then 0 else n + 1) xs'

-- The jobs per task, and those left over.
abbrev pub shares : ℕ → ℕ → ℕ × ℕ
shares jobs tasks = if leb jobs tasks then (1, 0) else (jobs / tasks, jobs - jobs / tasks * tasks)

unfoldable pub compute_jobs_per_task : List ℕ → (jobs tasks : ℕ) → Exec Outcome
compute_jobs_per_task xs jobs tasks =
    if tasks == 0 then ok (no_tasks xs) else if jobs == 0 then ok (no_jobs xs) else (do
      let (q, r) = shares jobs tasks
      xs' ← distribute tasks r 0 (replicate (length xs) q)
      ok (shared xs'))
