-- ===== src/Bitstream/Input/Array/Aligned.antt =====
-- The branch of `ReadArray` for a byte aligned stream.
use kanzi_go.Base.{
  if_cong, ℕ, suc, ◌-◌, ◌*◌, ◌<◌, ◌≤◌, ◌≡◌, ◌⊎◌, inl, inr, refl, ap, ◌∙◌, arith, true, false, List,
  [], ◌++◌, ◌==◌, if◌then◌else◌, Bool-cases, length, ok,
}
use kanzi_go.Base.Digits.{no_bits, byte_bits}
use kanzi_go.Bitstream.Source.{Source}
use kanzi_go.Bitstream.Input.{BitInput, pull}
use kanzi_go.Bitstream.Input.Window.{IsValid, rest_bytes, remaining}
use kanzi_go.Bitstream.Input.Refill.{pull_lem}
use kanzi_go.Bitstream.Input.Array.{read_bytes, copy_buffer, copy_words, read_aligned}
use kanzi_go.Bitstream.Input.Array.Progress.{
  TookBytes, Progress, more_progress, nothing-TookBytes, trans-TookBytes, length-TookBytes,
  read_bytes_lem,
}
use kanzi_go.Bitstream.Input.Read.{more_is_there}
use kanzi_go.Bitstream.Input.Array.Copy.{copy_buffer_lem, copy_words_lem}

module _ (is : Source) where
  aligned_eq :
      (t t1 t2 t3 : BitInput is) (done2 done3 : List ℕ) (n n2 n3 : ℕ)
      → (if t.avail_bits == 0 then pull is t else ok t) ≡ ok t1
      → read_bytes is (suc n) (λ u. u.avail_bits == 0) t1 [] n ≡ ok (t2, done2, n2)
      → copy_buffer is (suc (suc n2)) t2 done2 n2 ≡ ok (t3, done3, n3)
      → read_aligned is t n ≡ copy_words is t3 done3 n3
  unfolding read_aligned
  aligned_eq t t1 t2 t3 done2 done3 n n2 n3 e f g = rw e (rw f (rw g refl))

  -- `current` is filled if it is empty.
  first_pull :
      (t : BitInput is)
      → IsValid is t
      → 0 < length (remaining is t)
      → (u : BitInput is) × ((if t.avail_bits == 0 then pull is t else ok t) ≡ ok u)
        × TookBytes is t u []
  first_pull t v l = elim (Bool-cases (t.avail_bits == 0)) [
    | inr some_left ↦ (
      t,
      if_cong (t.avail_bits == 0) false (pull is t) (ok t) some_left,
      nothing-TookBytes is t v,
    )
    | inl none_left ↦
        let e : t.avail_bits ≡ 0 = ground arith in
        let (u, r, p) = pull_lem is t v (more_is_there is t 1 (omega arith) (omega arith)) in
        let c = p.counted in
        (
          u,
          if_cong (t.avail_bits == 0) true (pull is t) (ok t) none_left ∙ r,
          record {
            valid = p.valid;
            bytes = tt;
            taken =
                ap (λ b. b ++ byte_bits (rest_bytes is t)) (no_bits t.avail_bits t.current e)
                ∙ p.taken;
            counted = omega (arith, c, e);
          },
        )
  ]

  -- On a byte boundary, all but fewer than eight bytes may be read; what is read is what comes next.
  pub read_aligned_lem :
      (t : BitInput is) (m : ℕ)
      → IsValid is t
      → 0 < m
      → 8 * m ≤ length (remaining is t)
      → Progress is t [] m (read_aligned is t (8 * m))
  read_aligned_lem t m v h l =
      let (u, e, k) = first_pull t v (omega arith) in
      let (p, d) =
        read_bytes_lem is (suc (8 * m)) (λ u. u.avail_bits == 0) u [] m k.valid
          (omega (arith, length-TookBytes is t u [] k)) (omega arith) in
      let bound1 = p.bound in
      let m1 = m - length p.xs in
      let used1 = length-TookBytes is u p.after p.xs p.took in
      let used0 = length-TookBytes is t u [] k in
      let (q, b) =
        copy_buffer_lem is (suc (suc (8 * m1))) p.after p.xs m1 p.took.valid
          (empty_or_done p.after.avail_bits (length p.xs) d) (omega (arith, used0, used1))
          (omega arith) (inr (omega arith)) in
      let bound2 = q.bound in
      more_progress is t p.after [] p.xs m m1 _ _ (trans-TookBytes is t u p.after [] p.xs k p.took)
        (omega arith)
        (aligned_eq t u p.after q.after p.xs (p.xs ++ q.xs) (8 * m) (8 * m1)
          (8 * (m1 - length q.xs)) e p.returns q.returns)
        (more_progress is p.after q.after p.xs q.xs m1 (m1 - length q.xs) _ _ q.took (omega arith)
          refl
          (copy_words_lem is q.after (p.xs ++ q.xs) (m1 - length q.xs) q.took.valid b.empty_or_done
            b.room))
    where
      empty_or_done : (a k : ℕ) → ((a == 0) ≡ true) ⊎ (k ≡ m) → (a ≡ 0) ⊎ (m - k ≡ 0)
      empty_or_done a k (inl e) = inl (ground arith)
      empty_or_done a k (inr e) = inr (omega arith)
