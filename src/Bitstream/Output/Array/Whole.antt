-- ===== src/Bitstream/Output/Array/Whole.antt =====
-- `WriteArray` on whole bytes.
use kanzi_go.Base.Bytes.{drop-IsBytes}
use kanzi_go.Base.{
  if_cong, ℕ, suc, ◌+◌, ◌-◌, ◌*◌, ◌<◌, ◌≤◌, ◌≡◌, ◌⊎◌, refl, sym, ap, ap₂, ◌∙◌, arith, Bool, true,
  false, List, shl, ltb, leb, bit_and, ◌==◌, Bool-cases, inl, inr, if◌then◌else◌, length, take,
  drop, length-drop, drop-add, ok, IsBytes,
}
use kanzi_go.Base.Digits.{bits, byte_bits, byte_bits-append}
use kanzi_go.Bitstream.Sink.{Sink}
use kanzi_go.Bitstream.Output.{BitOutput}
use kanzi_go.Bitstream.Output.Stream.{IsValid, Extends}
use kanzi_go.Bitstream.Output.Array.{
  write_bytes, write_aligned, write_unaligned, write_quads, write_words, write_last, write_array,
}
use kanzi_go.Bitstream.Output.Array.Progress.{
  take-drop-append, Progress, no_progress, write_bytes_lem, trans-Extends,
}
use kanzi_go.Bitstream.Output.Array.Aligned.{write_aligned_lem, length-byte_bits}
use kanzi_go.Bitstream.Output.Array.Shift.{Pending, Shifted, trans-Shifted, write_words_lem}
use kanzi_go.Bitstream.Output.Array.Quads.{write_quads_lem}

module _ (os : Sink) where
  unaligned_eq :
      (t t1 t2 : BitOutput os) (bits bits1 bits2 : List ℕ) (m n1 n2 : ℕ)
      → 8 ≤ m
      → write_quads os (suc (8 * m)) t.avail_bits t bits (8 * m) ≡ ok (t1, bits1, n1)
      → write_words os (suc n1) t.avail_bits t1 bits1 n1 ≡ ok (t2, bits2, n2)
      → write_unaligned os t bits (8 * m) ≡ ok (record t2 { avail_bits = t.avail_bits }, bits2, n2)
  unfolding write_unaligned
  unaligned_eq t t1 t2 bits bits1 bits2 m n1 n2 h e f =
      let more : leb 64 (8 * m) ≡ true = ground arith in rw more (rw e (rw f refl))

  unaligned_few :
      (t : BitOutput os) (bits : List ℕ) (m : ℕ)
      → m < 8
      → write_unaligned os t bits (8 * m) ≡ ok (t, bits, 8 * m)
  unfolding write_unaligned
  unaligned_few t bits m h = let few : leb 64 (8 * m) ≡ false = ground arith in rw few refl

  Shifted-Extends :
      (t t' : BitOutput os) (new : List ℕ)
      → IsValid os t
      → Shifted os t.avail_bits t t' new
      → Extends os t (record t' { avail_bits = t.avail_bits }) (byte_bits new)
  Shifted-Extends t t' new v s =
      let n = s.counted in
      let r = s.pending.ready in
      record {
        valid = record {
          ready = record {
            is_open = r.is_open;
            room = r.room;
            aligned = r.aligned;
            sized = r.sized;
            whole = r.whole;
            sink_open = r.sink_open;
          };
          avail_pos = v.avail_pos;
          avail_bound = v.avail_bound;
          used = s.pending.used;
          current_eq = s.pending.current_eq;
          used_bound = s.pending.used_bound;
        };
        appended = s.appended;
        counted = omega (arith, n, length-byte_bits new);
      }

  write_unaligned_lem :
      (t : BitOutput os) (bits : List ℕ) (m : ℕ)
      → IsValid os t
      → IsBytes bits
      → m ≤ length bits
      → Progress os t bits m (write_unaligned os t bits (8 * m))
  write_unaligned_lem t bits m v i h = elim (Bool-cases (leb 8 m)) [
    | inr few ↦ no_progress os t bits m _ v (unaligned_few t bits m (ground arith))
    | inl many ↦
        let a = t.avail_bits in
        let p : Pending os a t = record {
          ready = v.ready;
          used = v.used;
          current_eq = v.current_eq;
          used_bound = v.used_bound;
        } in
        let q = write_quads_lem os (suc (8 * m)) a t bits m p v.avail_bound i h (omega arith) in
        let bound1 = q.bound in
        let m1 = m - q.k in
        let bits1 = drop q.k bits in
        let w =
          write_words_lem os (suc (8 * m1)) a q.after bits1 m1 q.shifted.pending v.avail_bound
            (drop-IsBytes q.k bits i) (omega (arith, length-drop q.k bits)) (omega arith) in
        let bound2 = w.bound in
        let left : m1 - w.k ≡ m - (q.k + w.k) = omega arith in
        record {
          after = record w.after { avail_bits = a };
          k = q.k + w.k;
          bound = omega arith;
          returns =
              unaligned_eq t q.after w.after bits bits1 (drop w.k bits1) m (8 * m1) (8 * (m1 - w.k))
                (ground arith) q.returns w.returns
              ∙ ap₂ (λ x n. ok (record w.after { avail_bits = a }, x, 8 * n))
                  (sym (drop-add q.k w.k bits)) left;
          extends = Shifted-Extends t w.after (take (q.k + w.k) bits) v (
              trans-Shifted os a t q.after w.after _ _ _ (take-drop-append q.k w.k bits) q.shifted
                w.shifted);
        }
  ]

  branch_lem :
      (b : Bool) (t : BitOutput os) (bits : List ℕ) (m : ℕ)
      → IsValid os t
      → IsBytes bits
      → m ≤ length bits
      → Progress os t bits m
          (if b then write_aligned os t bits (8 * m) else write_unaligned os t bits (8 * m))
  branch_lem true t bits m v i h = write_aligned_lem os t bits m v h
  branch_lem false t bits m v i h = write_unaligned_lem t bits m v i h

  nothing_left : (t : BitOutput os) (bits : List ℕ) (n : ℕ) → n ≡ 0 → write_last os t bits n ≡ ok t
  unfolding write_last
  nothing_left t bits n e = let none_left : ltb 0 n ≡ false = ground arith in rw none_left refl

  array_eq :
      (t t1 t2 : BitOutput os) (block bits1 bits2 : List ℕ) (n n1 n2 : ℕ)
      → t.closed ≡ false
      → n ≤ length block
      → (if bit_and t.avail_bits 7 == 0
          then write_aligned os t block (8 * n)
          else write_unaligned os t block (8 * n))
        ≡ ok (t1, bits1, n1)
      → write_bytes os (λ u. false) t1 bits1 n1 ≡ ok (t2, bits2, n2)
      → write_last os t2 bits2 n2 ≡ ok t2
      → write_array os t block (8 * n) ≡ ok (8 * n, t2)
  unfolding write_array
  array_eq t t1 t2 block bits1 bits2 n n1 n2 c h e f g =
      let fits : ltb (shl (length block) 3) (8 * n) ≡ false = ground arith in
      if_cong t.closed false _ _ c
      ∙ if_cong (ltb (shl (length block) 3) (8 * n)) false _ _ fits
      ∙ rw e (rw f (rw g refl))

  -- On a valid stream and a slice of bytes, for a whole number of bytes that the slice has, `WriteArray`
  -- returns their number of bits, appends them, keeps the stream valid, and adds the number to `Written`.
  pub write_array_lem :
      (t : BitOutput os) (block : List ℕ) (n : ℕ)
      → IsValid os t
      → IsBytes block
      → n ≤ length block
      → (t' : BitOutput os) × (write_array os t block (8 * n) ≡ ok (8 * n, t'))
        × Extends os t t' (byte_bits (take n block))
  write_array_lem t block n v i h =
      let p = branch_lem (bit_and t.avail_bits 7 == 0) t block n v i h in
      let bound = p.bound in
      let (q, d) =
        write_bytes_lem os (λ u. false) p.after (drop p.k block) (n - p.k) p.extends.valid
          (omega (arith, length-drop p.k block)) in
      let all : q.k ≡ n - p.k = at_end q.k (n - p.k) d in
      let whole : p.k + q.k ≡ n = omega (arith, all) in
      (
        q.after,
        array_eq t p.after q.after block (drop p.k block) (drop q.k (drop p.k block)) n
            (8 * (n - p.k)) (8 * (n - p.k - q.k)) v.ready.is_open h p.returns q.returns
            (nothing_left q.after _ _ (omega (arith, all))),
        with-Extends t q.after _ _
            (sym (byte_bits-append (take p.k block) (take q.k (drop p.k block)))
              ∙ ap byte_bits (take-drop-append p.k q.k block ∙ ap (λ k. take k block) whole))
            (trans-Extends os t p.after q.after _ _ p.extends q.extends),
      )
    where
      with-Extends :
          (t t' : BitOutput os) (xs ys : List ℕ) → xs ≡ ys → Extends os t t' xs → Extends os t t' ys
      with-Extends t t' xs ys e x = rw (← e) x

      at_end : (k m : ℕ) → (false ≡ true) ⊎ (k ≡ m) → k ≡ m
      at_end k m (inl e) = absurd (ground arith)
      at_end k m (inr e) = e
