-- ===== src/Internal/Jobs/Shares.antt =====
use native.Mathlib.Nat.{suc-mul, lt-div-mul-add, div-mul-le_self, mul_comm}
-- How the jobs are shared out.
use kanzi_go.Base.{
  ℕ, zero, suc, ◌+◌, ◌-◌, ◌*◌, ◌/◌, ◌≤◌, ◌<◌, ◌≡◌, refl, sym, ap, ◌∙◌, List, [], ◌∷◌, ◌++◌, arith,
  leb, ltb, ◌==◌, if◌then◌else◌, true, false, length, replicate, append-nil, length-append,
  length-replicate, set, get_or, ok, Bool-cases, inl, inr,
}
use kanzi_go.Internal.Jobs.{shared, distribute, compute_jobs_per_task}

abbrev pub sum : List ℕ → ℕ
sum [] = 0
sum (x ∷ xs) = x + sum xs

-- Every entry is `q` or `q + 1`.
abbrev pub IsEven : ℕ → List ℕ → Type 0
IsEven q [] = Unit {0}
IsEven q (x ∷ xs) = ((q ≤ x) × (x ≤ q + 1)) × IsEven q xs

set-middle :
    (n a b : ℕ) (xs : List ℕ) (v : ℕ)
    → set (replicate n a ++ (b ∷ xs)) n v ≡ replicate n a ++ (v ∷ xs)
set-middle zero a b xs v = refl
set-middle (suc n) a b xs v = ap (λ r. a ∷ r) (set-middle n a b xs v)

get_or-middle : (n a b d : ℕ) (xs : List ℕ) → get_or (replicate n a ++ (b ∷ xs)) n d ≡ b
get_or-middle zero a b d xs = refl
get_or-middle (suc n) a b d xs = get_or-middle n a b d xs

replicate-suc : (n a : ℕ) (xs : List ℕ) → replicate n a ++ (a ∷ xs) ≡ replicate (suc n) a ++ xs
replicate-suc zero a xs = refl
replicate-suc (suc n) a xs = ap (λ r. a ∷ r) (replicate-suc n a xs)

-- The first `n` tasks have got one more; the next `r` tasks get one.
distribute_lem :
    (tasks r n m q : ℕ)
    → n + r < tasks
    → distribute tasks r n (replicate n (q + 1) ++ replicate (r + m) q)
      ≡ ok (replicate (r + n) (q + 1) ++ replicate m q)
unfolding distribute
distribute_lem tasks zero n m q h =
    let a : zero + m ≡ m = omega arith in let b : zero + n ≡ n = omega arith in rw (a, b) refl
distribute_lem tasks (suc r) n m q h =
    let more : suc r + m ≡ suc (r + m) = omega arith in
    let l = length-append (replicate n (q + 1)) (q ∷ replicate (r + m) q) in
    let l' = length-replicate {A = ℕ} n (q + 1) in
    let room : ltb n (length (replicate n (q + 1) ++ (q ∷ replicate (r + m) q))) ≡ true =
      ground (arith, l, l') in
    let next : (n + 1 == tasks) ≡ false = ground arith in
    let one : n + 1 ≡ suc n = omega arith in
    let count : suc r + n ≡ r + suc n = omega arith in
    rw more (
      rw room (
        rw (get_or-middle n (q + 1) q 0 (replicate (r + m) q)) (
          rw (set-middle n (q + 1) q (replicate (r + m) q) (q + 1)) (
            rw (replicate-suc n (q + 1) (replicate (r + m) q))
              (rw next (rw one (rw count (distribute_lem tasks r (suc n) m q (omega arith)))))))))

sum-replicate : (n a : ℕ) (xs : List ℕ) → sum (replicate n a ++ xs) ≡ n * a + sum xs
sum-replicate zero a xs = omega arith
sum-replicate (suc n) a xs = omega (arith, sum-replicate n a xs, suc-mul n a)

replicate-IsEven :
    (n q a : ℕ) (xs : List ℕ) → q ≤ a → a ≤ q + 1 → IsEven q xs → IsEven q (replicate n a ++ xs)
replicate-IsEven zero q a xs h k e = e
replicate-IsEven (suc n) q a xs h k e = ((h, k), replicate-IsEven n q a xs h k e)

share_total : (r m q : ℕ) → r * (q + 1) + m * q ≡ (r + m) * q + r
share_total r m q = grind arith

-- More jobs than tasks.
left_over : (jobs tasks : ℕ) → 0 < tasks → jobs - jobs / tasks * tasks < tasks
left_over jobs tasks h = omega (arith, lt-div-mul-add {a = jobs} h)

quotient_pos : (q jobs tasks : ℕ) → jobs < q * tasks + tasks → tasks < jobs → 0 < q
quotient_pos zero jobs tasks h k = absurd (omega arith)
quotient_pos (suc q) jobs tasks h k = omega arith

shared_out :
    (tasks q r m : ℕ)
    → r < tasks
    → r + m ≡ tasks
    → (ys : List ℕ) × (distribute tasks r 0 (replicate tasks q) ≡ ok ys)
      × (length ys ≡ tasks)
      × (sum ys ≡ tasks * q + r)
      × IsEven q ys
shared_out tasks q r m h e =
    let run = distribute_lem tasks r 0 m q (omega arith) in
    let more = replicate r (q + 1) in
    let n : r + 0 ≡ r = omega arith in
    let l1 = length-replicate {A = ℕ} r (q + 1) in
    let l2 = length-replicate {A = ℕ} m q in
    let s1 = sum-replicate r (q + 1) (replicate m q) in
    let s2 = sum-replicate m q [] in
    let none_left = append-nil (replicate m q) in
    let total : sum (replicate m q) ≡ m * q + 0 = ap sum (sym none_left) ∙ s2 in
    (
      more ++ replicate m q,
      ap (λ k. distribute tasks r 0 (replicate k q)) (sym e)
          ∙ run
          ∙ ap (λ k. ok (replicate k (q + 1) ++ replicate m q)) n,
      omega (arith, length-append more (replicate m q), l1, l2, e),
      s1
          ∙ ap (λ k. r * (q + 1) + k) total
          ∙ omega (arith, share_total r m q)
          ∙ ap (λ k. k * q + r) e,
      replicate-IsEven r q (q + 1) (replicate m q) (omega arith) (omega arith)
          (rw none_left at (replicate-IsEven m q q [] (omega arith) (omega arith) tt)),
    )

-- For a slice with an entry per task, and at least one task and one job: no panic; the entries add
-- up to the number of jobs, or of tasks where there are no more jobs than tasks; every entry is at
-- least one, and no two differ by more than one.
pub compute_jobs_per_task_lem :
    (xs : List ℕ) (jobs tasks : ℕ)
    → 0 < tasks
    → 0 < jobs
    → length xs ≡ tasks
    → (ys : List ℕ) × (compute_jobs_per_task xs jobs tasks ≡ ok (shared ys))
      × (length ys ≡ tasks)
      × (sum ys ≡ (if leb jobs tasks then tasks else jobs))
      × ((q : ℕ) × (0 < q) × IsEven q ys)
unfolding compute_jobs_per_task
compute_jobs_per_task_lem xs jobs tasks ht hj l =
    let a : (tasks == 0) ≡ false = ground arith in
    let b : (jobs == 0) ≡ false = ground arith in
    elim (Bool-cases (leb jobs tasks)) [
      | inl e ↦
          let (ys, run, len, total, even) = shared_out tasks 1 0 tasks ht (omega arith) in
          let run' = ap (λ k. distribute tasks 0 0 (replicate k 1)) l ∙ run in
          (
            ys,
            rw (a, b, e) (rw run' refl),
            len,
            rw e (omega (arith, total)),
            (1, omega arith, even),
          )
      | inr e ↦
          let q = jobs / tasks in
          let r = jobs - jobs / tasks * tasks in
          let small = left_over jobs tasks ht in
          let many : tasks < jobs = ground arith in
          let (ys, run, len, total, even) =
            shared_out tasks q r (tasks - r) small (omega (arith, small)) in
          let run' = ap (λ k. distribute tasks r 0 (replicate k q)) l ∙ run in
          (
            ys,
            rw (a, b, e) (rw run' refl),
            len,
            rw e (omega (arith, total, div-mul-le_self jobs tasks, mul_comm tasks q)),
            (q, quotient_pos q jobs tasks (lt-div-mul-add ht) many, even),
          )
    ]
