-- ===== src/Bitstream/Input/Array/Copy.antt =====
-- The bytes of the buffer go to the slice.
use kanzi_go.Base.{
  ℕ, zero, suc, ◌+◌, ◌-◌, ◌*◌, ◌%◌, ◌<◌, ◌≤◌, ◌≡◌, ◌≢◌, ◌⊎◌, inl, inr, refl, sym, ap, ap₂, ◌∙◌,
  arith, true, false, List, [], ◌++◌, shl, shr, ltb, leb, Bool-cases, length, take, drop,
  length-take, length-drop, length-append, ok,
}
use kanzi_go.Base.Bytes.{take-IsBytes, drop-IsBytes}
use kanzi_go.Base.Digits.{no_bits, bits, byte_bits}
use kanzi_go.Bitstream.Source.{Source}
use kanzi_go.Bitstream.Output.Array.Aligned.{length-byte_bits}
use kanzi_go.Bitstream.Input.{BitInput, read_from_source}
use kanzi_go.Bitstream.Input.Window.{IsValid, in_buffer, rest_bytes, remaining}
use kanzi_go.Bitstream.Input.Pull.{split_bytes}
use kanzi_go.Bitstream.Input.Refill.{Refilled, refill_lem, used_up_lem}
use kanzi_go.Bitstream.Input.Array.{copy_buffer, copy_words}
use kanzi_go.Bitstream.Input.Array.Progress.{
  TookBytes, Progress, no_progress, more_progress, length-TookBytes,
}

module _ (is : Source) where
  skipped-IsValid :
      (t : BitInput is) (k p : ℕ)
      → IsValid is t
      → t.position + k ≡ p
      → p ≤ t.limit
      → (p % 8 ≡ 0) ⊎ (p ≡ t.limit)
      → IsValid is (record t { position = p })
  skipped-IsValid t k p v e h al = record {
    is_open = v.is_open;
    inside = h;
    within = v.within;
    sized = v.sized;
    whole = v.whole;
    aligned = al;
    filled = still_filled v.filled;
    bytes = v.bytes;
    source_open = v.source_open;
    avail_bound = v.avail_bound;
  }
    where
      still_filled : {A : Type 0} → (t.position ≡ t.limit) ⊎ A → (p ≡ t.limit) ⊎ A
      still_filled (inl a) = inl (omega arith)
      still_filled (inr a) = inr a

  -- Bytes of the buffer are passed over.
  skip_lem :
      (t : BitInput is) (k p : ℕ)
      → IsValid is t
      → t.avail_bits ≡ 0
      → t.position + k ≡ p
      → p ≤ t.limit
      → (p % 8 ≡ 0) ⊎ (p ≡ t.limit)
      → TookBytes is t (record t { position = p }) (take k (drop t.position t.buffer))
  skip_lem t k p v a e h al =
      let within = v.within in
      let none = no_bits t.avail_bits t.current a in
      let xs = take k (drop t.position t.buffer) in
      let u : BitInput is = record t { position = p } in
      let l : length xs ≡ k =
        omega (arith, length-take k (drop t.position t.buffer), length-drop t.position t.buffer) in
      record {
        valid = skipped-IsValid t k p v e h al;
        bytes =
            take-IsBytes k (drop t.position t.buffer) (drop-IsBytes t.position t.buffer v.bytes);
        taken =
            ap (λ b. b ++ byte_bits (rest_bytes is t)) none
            ∙ split_bytes is t k p e h
            ∙ ap (λ b. byte_bits xs ++ (b ++ byte_bits (rest_bytes is u))) (sym none);
        counted = omega (arith, l);
      }

  Refilled-TookBytes :
      (t u v : BitInput is) (xs : List ℕ)
      → TookBytes is t u xs
      → u.position ≡ u.limit
      → Refilled is u v
      → TookBytes is t v xs
  Refilled-TookBytes t u v xs k e r =
      let m = k.counted in
      let n = r.counted in
      let a = r.avail_eq in
      record {
        valid = r.valid;
        bytes = k.bytes;
        taken =
            k.taken
            ∙ ap (λ b. byte_bits xs ++ b)
                (ap₂ (λ n c. bits n c ++ byte_bits (rest_bytes is u)) (sym r.avail_eq)
                    (sym r.current_eq)
                  ∙ ap (λ b. bits v.avail_bits v.current ++ byte_bits b)
                      (used_up_lem is u e ∙ sym r.new_bytes));
        counted = omega (arith, m, n, a);
      }

  -- More is wanted than the buffer holds, so the source has it.
  pending_more :
      (t : BitInput is) (m : ℕ)
      → IsValid is t
      → t.avail_bits ≡ 0
      → 8 * m ≤ length (remaining is t)
      → t.limit - t.position < m
      → is.pending t.source ≢ []
  pending_more t m v a h l e =
      let all = length-append (bits t.avail_bits t.current) (byte_bits (rest_bytes is t)) in
      let none = ap length (no_bits t.avail_bits t.current a) in
      let some = length-byte_bits (rest_bytes is t) in
      let parts = length-append (in_buffer is t) (is.pending t.source) in
      let held = length-take (t.limit - t.position) (drop t.position t.buffer) in
      let nothing = ap length e in absurd (omega (arith, all, none, some, parts, held, nothing))

  refill_step :
      (fuel : ℕ) (t t' : BitInput is) (done : List ℕ) (m n : ℕ)
      → t.limit - t.position + n ≡ m
      → 0 < n
      → read_from_source is (record t { position = t.limit }) ≡ (false, t')
      → copy_buffer is (suc fuel) t done (8 * m)
        ≡ copy_buffer is fuel t' (done ++ in_buffer is t) (8 * n)
  unfolding copy_buffer
  refill_step fuel t t' done m n h p e =
      let more : ltb (t.limit - t.position) (shr (8 * m) 3) ≡ true = ground arith in
      let less : 8 * m - shl (t.limit - t.position) 3 ≡ 8 * n = omega arith in
      rw (more, copy_buffer)
        (rw (e, copy_buffer) (ap (copy_buffer is fuel t' (done ++ in_buffer is t)) less))

  refill_stop :
      (fuel : ℕ) (t : BitInput is) (done : List ℕ) (m : ℕ)
      → m ≤ t.limit - t.position
      → copy_buffer is (suc fuel) t done (8 * m) ≡ ok (t, done, 8 * m)
  unfolding copy_buffer
  refill_stop fuel t done m h =
      let enough : ltb (t.limit - t.position) (shr (8 * m) 3) ≡ false = ground arith in
      rw (enough, copy_buffer) refl

  -- What is still wanted is in the buffer.
  pub record InBuffer (t : BitInput is) (n m : ℕ) : Type 0 where
    pub room : m - n ≤ t.limit - t.position
    pub empty_or_done : (t.avail_bits ≡ 0) ⊎ (m - n ≡ 0)

  -- An empty buffer takes a turn of its own.
  pub copy_buffer_lem :
      (fuel : ℕ) (t : BitInput is) (done : List ℕ) (m : ℕ)
      → IsValid is t
      → (t.avail_bits ≡ 0) ⊎ (m ≡ 0)
      → 8 * m ≤ length (remaining is t)
      → m < fuel
      → (t.position < t.limit) ⊎ (suc m < fuel)
      → (p : Progress is t done m (copy_buffer is fuel t done (8 * m))) × InBuffer p.after
          (length p.xs)
          m
  unfolding no_progress more_progress
  copy_buffer_lem zero t done m v a h f g = absurd (omega arith)
  copy_buffer_lem (suc fuel) t done m v a h f g = elim (Bool-cases (ltb (t.limit - t.position) m)) [
    | inr enough ↦ (
      no_progress is t done m _ v (refill_stop fuel t done m (ground arith)),
      record { room = ground arith; empty_or_done = still a },
    )
    | inl more ↦
        let l : t.limit - t.position < m = ground arith in
        let inside = v.inside in
        let within = v.within in
        let e : t.position + (t.limit - t.position) ≡ t.limit = omega arith in
        let z = not_done a l in
        let k = skip_lem t (t.limit - t.position) t.limit v z e (omega arith) (inr refl) in
        let (t', r, q) =
          refill_lem is (record t { position = t.limit }) k.valid (pending_more t m v z h l) in
        let w =
          Refilled-TookBytes t (record t { position = t.limit }) t' (in_buffer is t) k refl q in
        let nonempty = q.nonempty in
        let held : length (in_buffer is t) ≡ t.limit - t.position = omega (
          arith,
          length-take (t.limit - t.position) (drop t.position t.buffer),
          length-drop t.position t.buffer,
        ) in
        let n = m - (t.limit - t.position) in
        let (p, b) =
          copy_buffer_lem fuel t' (done ++ in_buffer is t) n w.valid (inl (q.avail_eq ∙ z))
            (omega (arith, length-TookBytes is t t' (in_buffer is t) w, held)) (fewer g f l)
            (inl nonempty) in
        let room = b.room in
        (
          more_progress is t t' done (in_buffer is t) m n _ _ w (omega (arith, held))
              (refill_step fuel t t' done m n (omega arith) (omega arith) r) p,
          record {
            room = omega (arith, held, length-append (in_buffer is t) p.xs);
            empty_or_done =
                later (length p.xs) (length (in_buffer is t)) (length (in_buffer is t ++ p.xs))
                  b.empty_or_done held (length-append (in_buffer is t) p.xs);
          },
        )
  ]
    where
      still : (t.avail_bits ≡ 0) ⊎ (m ≡ 0) → (t.avail_bits ≡ 0) ⊎ (m - 0 ≡ 0)
      still (inl e) = inl e
      still (inr e) = inr (omega arith)

      not_done : (t.avail_bits ≡ 0) ⊎ (m ≡ 0) → t.limit - t.position < m → t.avail_bits ≡ 0
      not_done (inl e) l = e
      not_done (inr e) l = absurd (omega arith)

      fewer :
          (t.position < t.limit) ⊎ (suc m < suc fuel)
          → m < suc fuel
          → t.limit - t.position < m
          → m - (t.limit - t.position) < fuel
      fewer (inl e) f l = omega arith
      fewer (inr e) f l = omega arith

      later :
          {A : Type 0} (x y z : ℕ)
          → A ⊎ (m - (t.limit - t.position) - x ≡ 0)
          → y ≡ t.limit - t.position
          → z ≡ y + x
          → A ⊎ (m - z ≡ 0)
      later x y z (inl a) d e = inl a
      later x y z (inr a) d e = inr (omega arith)

  words_eq :
      (t : BitInput is) (done : List ℕ) (m r : ℕ)
      → shl (shr (8 * m) 6) 3 ≡ r
      → 0 < r
      → t.position + r ≤ length t.buffer
      → copy_words is t done (8 * m)
        ≡ ok (
          record t { position = t.position + r },
          done ++ take r (drop t.position t.buffer),
          8 * (m - r),
        )
  unfolding copy_words
  words_eq t done m r e p h =
      let some_words : ltb 0 r ≡ true = ground arith in
      let enough : leb (t.position + r) (length t.buffer) ≡ true = ground arith in
      let less : 8 * m - shl r 3 ≡ 8 * (m - r) = omega arith in
      rw (e, copy_words)
        (rw (some_words, copy_words) (rw (enough, copy_words) (rw (less, copy_words) refl)))

  no_words_eq :
      (t : BitInput is) (done : List ℕ) (m : ℕ)
      → shl (shr (8 * m) 6) 3 ≡ 0
      → copy_words is t done (8 * m) ≡ ok (t, done, 8 * m)
  unfolding copy_words
  no_words_eq t done m e =
      let no_word : ltb 0 (shl (shr (8 * m) 6) 3) ≡ false = ground arith in
      rw (no_word, copy_words) refl

  pub copy_words_lem :
      (t : BitInput is) (done : List ℕ) (m : ℕ)
      → IsValid is t
      → (t.avail_bits ≡ 0) ⊎ (m ≡ 0)
      → m ≤ t.limit - t.position
      → Progress is t done m (copy_words is t done (8 * m))
  copy_words_lem t done m v a h =
      let r = shl (shr (8 * m) 6) 3 in
      let within = v.within in
      elim (Bool-cases (ltb 0 r)) [
        | inr no_words ↦ no_progress is t done m _ v (no_words_eq t done m (ground arith))
        | inl more ↦
            let positive : 0 < r = ground arith in
            let k =
              skip_lem t r (t.position + r) v (not_done a positive) refl (omega arith)
                (still_aligned v.aligned positive) in
            let l = length-take r (drop t.position t.buffer) in
            let n = length-drop t.position t.buffer in
            let whole : length (take r (drop t.position t.buffer)) ≡ r = omega arith in
            record {
              after = record t { position = t.position + r };
              xs = take r (drop t.position t.buffer);
              bound = omega arith;
              returns =
                  words_eq t done m r refl positive (omega arith)
                  ∙ ap
                      (λ x. ok (
                        record t { position = t.position + r },
                        done ++ take r (drop t.position t.buffer),
                        8 * (m - x),
                      ))
                      (sym whole);
              took = k;
            }
      ]
    where
      not_done : (t.avail_bits ≡ 0) ⊎ (m ≡ 0) → 0 < shl (shr (8 * m) 6) 3 → t.avail_bits ≡ 0
      not_done (inl e) l = e
      not_done (inr e) l = absurd (omega arith)

      still_aligned :
          (t.position % 8 ≡ 0) ⊎ (t.position ≡ t.limit)
          → 0 < shl (shr (8 * m) 6) 3
          → ((t.position + shl (shr (8 * m) 6) 3) % 8 ≡ 0)
            ⊎ (t.position + shl (shr (8 * m) 6) 3 ≡ t.limit)
      still_aligned (inl e) l = inl (omega arith)
      still_aligned (inr e) l = absurd (omega arith)
