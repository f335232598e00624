-- ===== src/Bitstream/Input/Array/Whole.antt =====
-- `ReadArray` for whole bytes.
use kanzi_go.Base.{
  if_cong, ℕ, zero, suc, ◌-◌, ◌*◌, ◌%◌, ◌<◌, ◌≤◌, ◌≡◌, ◌⊎◌, inl, inr, refl, sym, ap, ◌∙◌, arith,
  true, false, List, [], ◌++◌, bit_and, ltb, ◌==◌, if◌then◌else◌, Bool-cases, length, length-append,
  Exec, ok, ◌>>=◌,
}
use kanzi_go.Base.Masks.{and_mask}
use kanzi_go.Bitstream.Source.{Source}
use kanzi_go.Bitstream.Input.{BitInput}
use kanzi_go.Bitstream.Input.Window.{IsValid, remaining}
use kanzi_go.Bitstream.Input.Array.{
  Cursor, read_bytes, read_aligned, read_unaligned, read_last, read_array,
}
use kanzi_go.Bitstream.Input.Array.Progress.{
  TookBytes, nothing-TookBytes, trans-TookBytes, length-TookBytes, Progress, read_bytes_lem,
}
use kanzi_go.Bitstream.Input.Array.Aligned.{read_aligned_lem}
use kanzi_go.Bitstream.Input.Array.Unaligned.{read_unaligned_lem}

module _ (is : Source) where
  last_eq : (t : BitInput is) (done : List ℕ) (n : ℕ) → n ≡ 0 → read_last is t done n ≡ ok (done, t)
  unfolding read_last
  last_eq t done n e = let none : ltb 0 n ≡ false = ground arith in rw (none, read_last) refl

  array_eq :
      (t t1 t2 : BitInput is) (done1 done2 : List ℕ) (n n1 : ℕ)
      → t.closed ≡ false
      → 0 < n
      → (if bit_and t.avail_bits 7 == 0 then read_aligned is t n else read_unaligned is t n)
        ≡ ok (t1, done1, n1)
      → read_bytes is (suc n1) (λ u. false) t1 done1 n1 ≡ ok (t2, done2, 0)
      → read_array is t n ≡ ok (done2, t2)
  unfolding read_array
  array_eq t t1 t2 done1 done2 n n1 c h e f =
      let some : (n == 0) ≡ false = ground arith in
      if_cong t.closed false _ _ c
      ∙ if_cong (n == 0) false _ _ some
      ∙ ap
          (λ r. r >>= λ (u, d, k).
            (read_bytes is (suc k) (λ u. false) u d k >>= λ (u', d', k'). read_last is u' d' k'))
          e
      ∙ ap (λ r. r >>= λ (u', d', k'). read_last is u' d' k') f
      ∙ last_eq t2 done2 0 refl

  empty_eq : (t : BitInput is) → t.closed ≡ false → read_array is t (8 * 0) ≡ ok ([], t)
  unfolding read_array
  empty_eq t c = if_cong t.closed false _ _ c

  -- On either branch.
  branch_lem :
      (t : BitInput is) (m : ℕ)
      → IsValid is t
      → 0 < m
      → 8 * m ≤ length (remaining is t)
      → Progress is t [] m (
          if bit_and t.avail_bits 7 == 0
          then read_aligned is t (8 * m)
          else read_unaligned is t (8 * m))
  branch_lem t m v h l = elim (Bool-cases (bit_and t.avail_bits 7 == 0)) [
    | inl aligned ↦
        same _ _ (if_cong (bit_and t.avail_bits 7 == 0) true _ _ aligned)
          (read_aligned_lem is t m v h l)
    | inr unaligned ↦
        let e = and_mask 3 t.avail_bits in
        let b = v.avail_bound in
        let off : (t.avail_bits % 8 == 0) ≡ false = ap (λ x. x == 0) (sym e) ∙ unaligned in
        same _ _ (if_cong (bit_and t.avail_bits 7 == 0) false _ _ unaligned)
          (read_unaligned_lem is t m v (below off) l)
  ]
    where
      same : (r s : Exec (Cursor is)) → r ≡ s → Progress is t [] m s → Progress is t [] m r
      same r s e p = rw e p

      below : (t.avail_bits % 8 == 0) ≡ false → t.avail_bits < 64
      below e = let b = v.avail_bound in let k : 0 < t.avail_bits % 8 = ground arith in omega arith

  -- For `count` whole bytes that are still to be read, `ReadArray` fills the slice with those bytes, takes them
  -- off, counts them, and keeps the stream valid.
  pub read_array_lem :
      (t : BitInput is) (count : ℕ)
      → IsValid is t
      → 8 * count ≤ length (remaining is t)
      → (xs : List ℕ) × (t' : BitInput is) × (read_array is t (8 * count) ≡ ok (xs, t'))
        × (length xs ≡ count)
        × TookBytes is t t' xs
  read_array_lem t zero v l = ([], t, empty_eq t v.is_open, refl, nothing-TookBytes is t v)
  read_array_lem t (suc n) v l =
      let m = suc n in
      let p = branch_lem t m v (omega arith) l in
      let bound1 = p.bound in
      let m1 = m - length p.xs in
      let (q, d) =
        read_bytes_lem is (suc (8 * m1)) (λ u. false) p.after p.xs m1 p.took.valid
          (omega (arith, length-TookBytes is t p.after p.xs p.took)) (omega arith) in
      let e = all_read (length q.xs) m1 d in
      let none : 8 * (m1 - length q.xs) ≡ 0 = omega (arith, e) in
      (
        p.xs ++ q.xs,
        q.after,
        array_eq t p.after q.after p.xs (p.xs ++ q.xs) (8 * m) (8 * m1) v.is_open (omega arith)
            p.returns (q.returns ∙ ap (λ k. ok (q.after, p.xs ++ q.xs, k)) none),
        omega (arith, e, length-append p.xs q.xs),
        trans-TookBytes is t p.after q.after p.xs q.xs p.took q.took,
      )
    where
      all_read : (k m : ℕ) → (false ≡ true) ⊎ (k ≡ m) → k ≡ m
      all_read k m (inl e) = absurd (ground arith)
      all_read k m (inr e) = e
