-- ===== src/Bitstream/Output/Array/Aligned.antt =====
-- The branch of `WriteArray` for a byte aligned stream.
use kanzi_go.Base.{
  ℕ, suc, ◌+◌, ◌-◌, ◌*◌, ◌/◌, ◌^◌, ◌<◌, ◌≤◌, ◌≡◌, ◌⊎◌, refl, sym, ap, ap₂, ◌∙◌, arith, true, false,
  List, [], ◌∷◌, ◌++◌, shl, shr, ltb, leb, ◌==◌, Bool-cases, inl, inr, length, take, drop,
  append-nil, length-append, length-take, length-drop, drop-add, Exec, ok,
}
use kanzi_go.Base.Digits.{no_bits, bits, byte_bits, byte_bits-append, length-bits}
use kanzi_go.Bitstream.Sink.{Sink}
use kanzi_go.Bitstream.Output.{BitOutput, copy_at}
use kanzi_go.Bitstream.Output.Push.{IsReady, flushed, Pushed}
use kanzi_go.Bitstream.Output.Stream.{IsValid, Extends}
use kanzi_go.Bitstream.Output.Array.{Cursor, write_bytes, copy_blocks, copy_words, write_aligned}
use kanzi_go.Bitstream.Output.Array.Progress.{
  take-drop-append, Progress, write_bytes_lem, trans-Extends,
}
use kanzi_go.Bitstream.Output.Array.Copy.{
  Copied, Fits, copied_lem, copy_blocks_lem, trans-Pushed, nothing-Pushed,
}

pub length-byte_bits : (xs : List ℕ) → length (byte_bits xs) ≡ 8 * length xs
length-byte_bits [] = refl
length-byte_bits (x ∷ xs) =
    omega (arith, length-append (bits 8 x) (byte_bits xs), length-bits 8 x, length-byte_bits xs)

swap : (f n x : List ℕ) → (x ≡ []) ⊎ (n ≡ []) → (f ++ n) ++ x ≡ (f ++ x) ++ n
swap f n x (inl e) =
    ap (λ y. (f ++ n) ++ y) e
    ∙ append-nil (f ++ n)
    ∙ ap (λ y. y ++ n) (sym (append-nil f) ∙ ap (λ y. f ++ y) (sym e))
swap f n x (inr e) =
    ap (λ y. (f ++ y) ++ x) e
    ∙ ap (λ y. y ++ x) (append-nil f)
    ∙ sym (append-nil (f ++ x))
    ∙ ap (λ y. (f ++ x) ++ y) (sym e)

module _ (os : Sink) where
  -- Bytes in the buffer are behind all bits if `current` is empty, or there are none.
  Pushed-Extends :
      (t t' : BitOutput os) (new : List ℕ)
      → IsValid os t
      → Pushed os t t' new
      → (t.avail_bits ≡ 64) ⊎ (new ≡ [])
      → Extends os t t' (byte_bits new)
  Pushed-Extends t t' new v p h =
      let a = p.avail_eq in
      let c = p.current_eq in
      let low = v.avail_pos in
      let high = v.avail_bound in
      let n = p.counted in
      let tail = bits (64 - t.avail_bits) (t.current / 2 ^ t.avail_bits) in
      record {
        valid = record {
          ready = p.ready;
          avail_pos = omega (arith, a);
          avail_bound = omega (arith, a);
          used = v.used;
          current_eq = c ∙ v.current_eq ∙ ap (λ k. v.used * 2 ^ k) (sym a);
          used_bound =
              same_bound v.used (64 - t.avail_bits) (64 - t'.avail_bits) (ap (λ k. 64 - k) (sym a))
                v.used_bound;
        };
        appended =
            ap₂ (λ f k. f ++ bits (64 - k) (t'.current / 2 ^ k)) p.appended a
            ∙ ap
                (λ x.
                  (flushed os t ++ byte_bits new)
                  ++ bits (64 - t.avail_bits) (x / 2 ^ t.avail_bits))
                c
            ∙ swap (flushed os t) (byte_bits new) tail (empty h);
        counted = omega (arith, n, a, length-byte_bits new);
      }
    where
      same_bound : (x m n : ℕ) → m ≡ n → x < 2 ^ m → x < 2 ^ n
      same_bound x m n e h = let q = ap (λ k. 2 ^ k) e in omega arith

      empty :
          (t.avail_bits ≡ 64) ⊎ (new ≡ [])
          → (bits (64 - t.avail_bits) (t.current / 2 ^ t.avail_bits) ≡ []) ⊎ (byte_bits new ≡ [])
      empty (inl e) = inl (no_bits (64 - t.avail_bits) (t.current / 2 ^ t.avail_bits) (omega arith))
      empty (inr e) = inr (ap byte_bits e)

  words_eq :
      (t : BitOutput os) (bits : List ℕ) (m r : ℕ)
      → shl (shr (8 * m) 6) 3 ≡ r
      → 0 < r
      → r ≤ length bits
      → copy_words os t bits (8 * m)
        ≡ ok (
          record t {
            buffer = copy_at t.buffer t.position (take r bits);
            position = t.position + r;
          },
          drop r bits,
          8 * (m - r),
        )
  unfolding copy_words
  words_eq t bits m r e p h =
      let some_words : ltb 0 r ≡ true = ground arith in
      let enough : leb r (length bits) ≡ true = ground arith in
      let less : 8 * m - shl r 3 ≡ 8 * (m - r) = omega arith in
      rw (e, copy_words)
        (rw (some_words, copy_words) (rw (enough, copy_words) (rw (less, copy_words) refl)))

  no_words_eq :
      (t : BitOutput os) (bits : List ℕ) (m : ℕ)
      → shl (shr (8 * m) 6) 3 ≡ 0
      → copy_words os t bits (8 * m) ≡ ok (t, bits, 8 * m)
  unfolding copy_words
  no_words_eq t bits m e =
      let no_word : ltb 0 (shl (shr (8 * m) 6) 3) ≡ false = ground arith in
      rw (no_word, copy_words) refl

  copy_words_lem :
      (t : BitOutput os) (bits : List ℕ) (m : ℕ)
      → IsReady os t
      → m ≤ length bits
      → Fits os m t
      → Copied os t bits m (copy_words os t bits (8 * m))
  copy_words_lem t bits m ready h f =
      let r = shl (shr (8 * m) 6) 3 in
      let room = ready.room in
      let aligned = ready.aligned in
      let whole = ready.whole in
      let sized = ready.sized in
      elim (Bool-cases (ltb 0 r)) [
        | inr no_words ↦ record {
          after = t;
          k = 0;
          bound = omega arith;
          returns =
              no_words_eq t bits m (ground arith) ∙ ap (λ n. ok (t, bits, 8 * n)) (omega arith);
          pushed = nothing-Pushed os t ready;
        }
        | inl more ↦
            let positive : 0 < r = ground arith in
            let long : length (take r bits) ≡ r = omega (arith, length-take r bits) in
            let (a, l) =
              copied_lem os t (take r bits) (t.position + r) (omega (arith, long)) (omega arith) in
            record {
              after = record t {
                buffer = copy_at t.buffer t.position (take r bits);
                position = t.position + r;
              };
              k = r;
              bound = omega arith;
              returns = words_eq t bits m r refl positive (omega arith);
              pushed = record {
                ready = record {
                  is_open = ready.is_open;
                  room = omega (arith, l);
                  aligned = omega arith;
                  sized = omega (arith, l);
                  whole = omega (arith, l);
                  sink_open = ready.sink_open;
                };
                appended = a;
                counted = omega (arith, long);
                current_eq = refl;
                avail_eq = refl;
                length_eq = l;
              };
            }
      ]

  aligned_eq :
      (t t1 t2 : BitOutput os) (bits bits1 bits2 : List ℕ) (n n1 n2 : ℕ) (r : Exec (Cursor os))
      → write_bytes os (λ u. u.avail_bits == 64) t bits n ≡ ok (t1, bits1, n1)
      → copy_blocks os (suc (suc (length bits1))) t1 bits1 n1 ≡ ok (t2, bits2, n2)
      → copy_words os t2 bits2 n2 ≡ r
      → write_aligned os t bits n ≡ r
  unfolding write_aligned
  aligned_eq t t1 t2 bits bits1 bits2 n n1 n2 r e f g = rw e (rw f g)

  trans-Copied :
      (t u v : BitOutput os) (bits : List ℕ) (j k : ℕ)
      → Pushed os t u (take j bits)
      → Pushed os u v (take k (drop j bits))
      → Pushed os t v (take (j + k) bits)
  trans-Copied t u v bits j k p q =
      with-Pushed _ _ (take-drop-append j k bits) (trans-Pushed os t u v _ _ p q)
    where
      with-Pushed : (xs ys : List ℕ) → xs ≡ ys → Pushed os t v xs → Pushed os t v ys
      with-Pushed xs ys e x = rw (← e) x

  take_none : (k m : ℕ) (xs : List ℕ) → k ≤ m → m ≡ 0 → take k xs ≡ []
  take_none k m xs h e = let z : k ≡ 0 = omega arith in ap (λ n. take n xs) z

  -- For whole bytes, whatever `availBits` is.
  pub write_aligned_lem :
      (t : BitOutput os) (bits : List ℕ) (m : ℕ)
      → IsValid os t
      → m ≤ length bits
      → Progress os t bits m (write_aligned os t bits (8 * m))
  write_aligned_lem t bits m v h =
      let (p, d) = write_bytes_lem os (λ u. u.avail_bits == 64) t bits m v h in
      let bound1 = p.bound in
      let m1 = m - p.k in
      let bits1 = drop p.k bits in
      let valid1 = p.extends.valid in
      let long1 = length-drop p.k bits in
      let (q, fits) =
        copy_blocks_lem os (suc (length bits1)) p.after bits1 m1 valid1.ready (omega (arith, long1))
          (omega (arith, long1)) in
      let bound2 = q.bound in
      let bits2 = drop q.k bits1 in
      let long2 = length-drop q.k bits1 in
      let w =
        copy_words_lem q.after bits2 (m1 - q.k) q.pushed.ready (omega (arith, long1, long2)) fits in
      let bound3 = w.bound in
      let j = q.k + w.k in
      let x =
        Pushed-Extends p.after w.after (take j bits1) valid1
          (trans-Copied p.after q.after w.after bits1 q.k w.k q.pushed w.pushed)
          (no_gap (p.after.avail_bits) m1 (take j bits1)
            (aligned_or_done p.after.avail_bits p.k m d) (take_none j m1 bits1 (omega arith))) in
      let left : m1 - q.k - w.k ≡ m - (p.k + j) = omega arith in
      record {
        after = w.after;
        k = p.k + j;
        bound = omega arith;
        returns =
            aligned_eq t p.after q.after bits bits1 bits2 (8 * m) (8 * m1) (8 * (m1 - q.k)) _
              p.returns q.returns w.returns
            ∙ ap₂ (λ y n. ok (w.after, y, 8 * n))
                (sym (drop-add q.k w.k bits1) ∙ sym (drop-add p.k j bits)) left;
        extends =
            with-Extends t w.after _ _
              (sym (byte_bits-append (take p.k bits) (take j bits1))
                ∙ ap byte_bits (take-drop-append p.k j bits))
              (trans-Extends os t p.after w.after _ _ p.extends x);
      }
    where
      with-Extends :
          (t t' : BitOutput os) (xs ys : List ℕ) → xs ≡ ys → Extends os t t' xs → Extends os t t' ys
      with-Extends t t' xs ys e x = rw (← e) x

      aligned_or_done : (a k m : ℕ) → ((a == 64) ≡ true) ⊎ (k ≡ m) → (a ≡ 64) ⊎ (m - k ≡ 0)
      aligned_or_done a k m (inl e) = inl (ground arith)
      aligned_or_done a k m (inr e) = inr (omega arith)

      no_gap :
          (a m : ℕ) (xs : List ℕ) → (a ≡ 64) ⊎ (m ≡ 0) → (m ≡ 0 → xs ≡ []) → (a ≡ 64) ⊎ (xs ≡ [])
      no_gap a m xs (inl e) f = inl e
      no_gap a m xs (inr e) f = inr (f e)
