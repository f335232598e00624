-- ===== src/Bitstream/Output/Array/Copy.antt =====
-- Bytes of a slice copied to the buffer.
use kanzi_go.Base.{
  ℕ, zero, suc, ◌+◌, ◌-◌, ◌*◌, ◌<◌, ◌≤◌, ◌≡◌, ◌⊎◌, refl, sym, ap, ap₂, ◌∙◌, arith, true, false, min,
  List, [], ◌++◌, shl, shr, ltb, leb, Bool-cases, inl, inr, length, take, drop, append_assoc,
  append-nil, length-append, length-take, length-drop, take-length-append, drop-add, Exec, ok,
}
use kanzi_go.Base.Digits.{bits, byte_bits, byte_bits-append}
use kanzi_go.Bitstream.Sink.{Sink}
use kanzi_go.Bitstream.Output.{BitOutput, copy_at, flush, flush_or_panic}
use kanzi_go.Bitstream.Output.Push.{
  IsReady, flushed, Pushed, flush_lem, take-replaced, length-replaced,
}
use kanzi_go.Bitstream.Output.Array.{Cursor, copy_blocks}
use kanzi_go.Bitstream.Output.Array.Progress.{take-drop-append}

take-all : (xs : List ℕ) → take (length xs) xs ≡ xs
take-all xs = ap (take (length xs)) (sym (append-nil xs)) ∙ take-length-append xs []

copy_at_eq :
    (buffer mid : List ℕ) (index : ℕ)
    → index + length mid ≤ length buffer
    → copy_at buffer index mid ≡ take index buffer ++ (mid ++ drop (index + length mid) buffer)
unfolding copy_at
copy_at_eq buffer mid index h =
    let all : min (length buffer - index) (length mid) ≡ length mid = omega arith in
    ap (λ n. take index buffer ++ (take n mid ++ drop (index + n) buffer)) all
    ∙ ap (λ x. take index buffer ++ (x ++ drop (index + length mid) buffer)) (take-all mid)

module _ (os : Sink) where
  -- The stream with `mid` in the buffer, up to position `p`.
  pub copied_lem :
      (t : BitOutput os) (mid : List ℕ) (p : ℕ)
      → t.position + length mid ≡ p
      → p ≤ length t.buffer
      → let t' : BitOutput os = record t {
        buffer = copy_at t.buffer t.position mid;
        position = p;
      } in
        (flushed os t' ≡ flushed os t ++ byte_bits mid) × (length t'.buffer ≡ length t.buffer)
  copied_lem t mid p e h =
      let r = byte_bits (os.received t.sink) in
      let c = copy_at_eq t.buffer mid t.position (omega arith) in
      (
        ap₂ (λ x n. r ++ byte_bits (take n x)) c (sym e)
            ∙ ap (λ x. r ++ byte_bits x)
                (take-replaced t.position t.buffer mid (drop (t.position + length mid) t.buffer)
                  (omega arith))
            ∙ ap (λ x. r ++ x) (byte_bits-append (take t.position t.buffer) mid)
            ∙ sym (append_assoc r (byte_bits (take t.position t.buffer)) (byte_bits mid)),
        ap length c ∙ length-replaced t.position t.buffer mid (omega arith),
      )

  -- `k` of the `m` bytes that remain went to the buffer.
  pub record Copied (t : BitOutput os) (bits : List ℕ) (m : ℕ) (r : Exec (Cursor os)) : Type 0 where
    pub after : BitOutput os
    pub k : ℕ
    pub bound : k ≤ m
    pub returns : r ≡ ok (after, drop k bits, 8 * (m - k))
    pub pushed : Pushed os t after (take k bits)

  pub trans-Pushed :
      (t u v : BitOutput os) (xs ys : List ℕ)
      → Pushed os t u xs
      → Pushed os u v ys
      → Pushed os t v (xs ++ ys)
  trans-Pushed t u v xs ys p q =
      let a = p.counted in
      let b = q.counted in
      record {
        ready = q.ready;
        appended =
            q.appended
            ∙ ap (λ x. x ++ byte_bits ys) p.appended
            ∙ append_assoc (flushed os t) (byte_bits xs) (byte_bits ys)
            ∙ ap (λ x. flushed os t ++ x) (sym (byte_bits-append xs ys));
        counted = omega (arith, a, b, length-append xs ys);
        current_eq = q.current_eq ∙ p.current_eq;
        avail_eq = q.avail_eq ∙ p.avail_eq;
        length_eq = q.length_eq ∙ p.length_eq;
      }

  block_eq :
      (fuel : ℕ) (t t' : BitOutput os) (bits : List ℕ) (m max_pos n : ℕ)
      → length t.buffer - 8 ≡ max_pos
      → max_pos - t.position ≡ n
      → max_pos ≤ m + t.position
      → t.position ≤ max_pos
      → n ≤ length bits
      → flush_or_panic os
          (record t { buffer = copy_at t.buffer t.position (take n bits); position = max_pos })
        ≡ ok t'
      → copy_blocks os (suc fuel) t bits (8 * m)
        ≡ copy_blocks os fuel t' (drop n bits) (8 * (m - n))
  unfolding copy_blocks
  block_eq fuel t t' bits m max_pos n d e h l b f =
      let full : leb max_pos (shr (8 * m) 3 + t.position) ≡ true = ground arith in
      let inside : leb t.position max_pos ≡ true = ground arith in
      let enough : leb n (length bits) ≡ true = ground arith in
      let less : 8 * m - shl n 3 ≡ 8 * (m - n) = omega arith in
      rw (d, copy_blocks)
        (rw (e, copy_blocks)
          (rw (full, copy_blocks)
            (rw (inside, enough, copy_blocks) (rw (f, copy_blocks) (rw (less, copy_blocks) refl)))))

  -- One round of the loop.
  record Block (fuel : ℕ) (t : BitOutput os) (bits : List ℕ) (m n : ℕ) : Type 0 where
    next : BitOutput os
    round :
        copy_blocks os (suc fuel) t bits (8 * m)
        ≡ copy_blocks os fuel next (drop n bits) (8 * (m - n))
    pushed : Pushed os t next (take n bits)
    from_zero : next.position ≡ 0

  flush_eq : (u t' : BitOutput os) → flush os u ≡ ok (false, t') → flush_or_panic os u ≡ ok t'
  flush_eq u t' e = rw e refl

  block_lem :
      (fuel : ℕ) (t : BitOutput os) (bits : List ℕ) (m : ℕ)
      → IsReady os t
      → m ≤ length bits
      → length t.buffer - 8 ≤ m + t.position
      → Block fuel t bits m (length t.buffer - 8 - t.position)
  block_lem fuel t bits m r h c =
      let max_pos = length t.buffer - 8 in
      let n = max_pos - t.position in
      let room = r.room in
      let sized = r.sized in
      let whole = r.whole in
      let long : length (take n bits) ≡ n = omega (arith, length-take n bits) in
      let u : BitOutput os = record t {
        buffer = copy_at t.buffer t.position (take n bits);
        position = max_pos;
      } in
      let (a, l) = copied_lem t (take n bits) max_pos (omega (arith, long)) (omega arith) in
      let (t', e, q, z, s) =
        flush_lem os u r.is_open r.sink_open (omega (arith, l)) (omega (arith, l))
          (omega (arith, l)) (omega (arith, l)) in
      let counted = q.counted in
      record {
        next = t';
        round =
            block_eq fuel t t' bits m max_pos n refl refl c (omega arith) (omega arith)
              (flush_eq u t' e);
        pushed = record {
          ready = q.ready;
          appended = q.appended ∙ append-nil (flushed os u) ∙ a;
          counted = omega (arith, counted, long);
          current_eq = q.current_eq;
          avail_eq = q.avail_eq;
          length_eq = q.length_eq ∙ l;
        };
        from_zero = z;
      }

  blocks_stop :
      (fuel : ℕ) (t : BitOutput os) (bits : List ℕ) (m : ℕ)
      → m + t.position < length t.buffer - 8
      → copy_blocks os (suc fuel) t bits (8 * m) ≡ ok (t, bits, 8 * m)
  unfolding copy_blocks
  blocks_stop fuel t bits m h =
      let room : leb (length t.buffer - 8) (shr (8 * m) 3 + t.position) ≡ false = ground arith in
      rw (room, copy_blocks) refl

  pub nothing-Pushed : (t : BitOutput os) → IsReady os t → Pushed os t t []
  nothing-Pushed t r = record {
    ready = r;
    appended = sym (append-nil (flushed os t));
    counted = omega arith;
    current_eq = refl;
    avail_eq = refl;
    length_eq = refl;
  }

  -- What is left fits into the buffer, with less than a word.
  abbrev pub Fits : ℕ → BitOutput os → Type 0
  Fits left t = left + t.position < length t.buffer - 8

  stopped :
      (fuel : ℕ) (t : BitOutput os) (bits : List ℕ) (m : ℕ)
      → IsReady os t
      → Fits m t
      → (p : Copied t bits m (copy_blocks os (suc fuel) t bits (8 * m))) × Fits (m - p.k) p.after
  stopped fuel t bits m r h = (
    record {
      after = t;
      k = 0;
      bound = omega arith;
      returns = blocks_stop fuel t bits m h ∙ ap (λ n. ok (t, bits, 8 * n)) (omega arith);
      pushed = nothing-Pushed t r;
    },
    omega arith,
  )

  after-Block :
      (fuel : ℕ) (t : BitOutput os) (bits : List ℕ) (m n : ℕ)
      → n ≤ m
      → (b : Block fuel t bits m n)
      → (p : Copied b.next
          (drop n bits)
          (m - n)
          (copy_blocks os fuel b.next (drop n bits) (8 * (m - n))))
        × Fits (m - n - p.k) p.after
      → (p : Copied t bits m (copy_blocks os (suc fuel) t bits (8 * m))) × Fits (m - p.k) p.after
  after-Block fuel t bits m n h b (p, f) =
      let bound = p.bound in
      let left : m - n - p.k ≡ m - (n + p.k) = omega arith in
      (
        record {
          after = p.after;
          k = n + p.k;
          bound = omega arith;
          returns =
              b.round
              ∙ p.returns
              ∙ ap₂ (λ x y. ok (p.after, x, 8 * y)) (sym (drop-add n p.k bits)) left;
          pushed =
              with-Pushed t p.after _ _ (take-drop-append n p.k bits)
                (trans-Pushed t b.next p.after _ _ b.pushed p.pushed);
        },
        omega arith,
      )
    where
      with-Pushed :
          (t t' : BitOutput os) (xs ys : List ℕ) → xs ≡ ys → Pushed os t t' xs → Pushed os t t' ys
      with-Pushed t t' xs ys e p = rw (← e) p

  ltb-or : (x y : ℕ) → (x < y) ⊎ (y ≤ x)
  ltb-or x y = elim (Bool-cases (ltb x y)) [
    | inl e ↦ inl (ground arith)
    | inr e ↦ inr (ground arith)
  ]

  -- From an empty buffer, each round takes at least eight bytes.
  from_zero_lem :
      (fuel : ℕ) (t : BitOutput os) (bits : List ℕ) (m : ℕ)
      → IsReady os t
      → t.position ≡ 0
      → m ≤ length bits
      → m < fuel
      → (p : Copied t bits m (copy_blocks os fuel t bits (8 * m))) × Fits (m - p.k) p.after
  from_zero_lem zero t bits m r z h f = absurd (omega arith)
  from_zero_lem (suc fuel) t bits m r z h f = elim (ltb-or (m + t.position) (length t.buffer - 8)) [
    | inl fits ↦ stopped fuel t bits m r fits
    | inr more ↦
        let sized = r.sized in
        let n = length t.buffer - 8 - t.position in
        let b = block_lem fuel t bits m r h more in
        after-Block fuel t bits m n (omega arith) b (
          from_zero_lem fuel b.next (drop n bits) (m - n) b.pushed.ready b.from_zero
            (omega (arith, length-drop n bits)) (omega arith))
  ]

  pub copy_blocks_lem :
      (fuel : ℕ) (t : BitOutput os) (bits : List ℕ) (m : ℕ)
      → IsReady os t
      → m ≤ length bits
      → m < fuel
      → (p : Copied t bits m (copy_blocks os (suc fuel) t bits (8 * m))) × Fits (m - p.k) p.after
  copy_blocks_lem fuel t bits m r h f = elim (ltb-or (m + t.position) (length t.buffer - 8)) [
    | inl fits ↦ stopped fuel t bits m r fits
    | inr more ↦
        let sized = r.sized in
        let n = length t.buffer - 8 - t.position in
        let b = block_lem fuel t bits m r h more in
        after-Block fuel t bits m n (omega arith) b (
          from_zero_lem fuel b.next (drop n bits) (m - n) b.pushed.ready b.from_zero
            (omega (arith, length-drop n bits)) (omega arith))
  ]
