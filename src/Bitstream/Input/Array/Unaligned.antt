-- ===== src/Bitstream/Input/Array/Unaligned.antt =====
-- The branch of `ReadArray` for a stream that is not byte aligned.
use kanzi_go.Base.{
  ℕ, zero, suc, ◌+◌, ◌-◌, ◌*◌, ◌<◌, ◌≤◌, ◌≡◌, inl, inr, refl, ap, arith, true, false, List, [],
  ◌++◌, u64, shl, shr, leb, bit_or, Bool-cases, length, drop, length-drop, ok,
}
use kanzi_go.Base.Bytes.{drop-IsBytes}
use kanzi_go.Bitstream.Source.{Source}
use kanzi_go.Bitstream.Output.{uint64_of, bytes_of_64}
use kanzi_go.Bitstream.Output.Array.Shift.{word_lem}
use kanzi_go.Bitstream.Input.{BitInput}
use kanzi_go.Bitstream.Input.Window.{IsValid, remaining}
use kanzi_go.Bitstream.Input.Array.{shift_word, read_quads, read_words, read_unaligned}
use kanzi_go.Bitstream.Input.Array.Progress.{
  TookBytes, trans-TookBytes, length-TookBytes, Progress, no_progress, more_progress,
}
use kanzi_go.Bitstream.Input.Array.Shift.{
  Steady, kept-Steady, same_avail, shift_word_lem, buffer_word_lem,
}

module _ (is : Source) where
  word_step :
      (fuel a : ℕ) (t t' : BitInput is) (done : List ℕ) (m val : ℕ)
      → 8 ≤ m
      → shift_word is a t ≡ ok (val, t')
      → read_words is (suc fuel) a t done (8 * m)
        ≡ read_words is fuel a t' (done ++ bytes_of_64 val) (8 * (m - 8))
  unfolding read_words
  word_step fuel a t t' done m val h e =
      let more : leb 64 (8 * m) ≡ true = ground arith in
      let less : 8 * m - 64 ≡ 8 * (m - 8) = omega arith in
      rw (more, read_words)
        (rw (e, read_words) (ap (read_words is fuel a t' (done ++ bytes_of_64 val)) less))

  word_stop :
      (fuel a : ℕ) (t : BitInput is) (done : List ℕ) (m : ℕ)
      → m < 8
      → read_words is (suc fuel) a t done (8 * m) ≡ ok (t, done, 8 * m)
  unfolding read_words
  word_stop fuel a t done m h =
      let few : leb 64 (8 * m) ≡ false = ground arith in rw (few, read_words) refl

  pub read_words_lem :
      (fuel a : ℕ) (t : BitInput is) (done : List ℕ) (m : ℕ)
      → IsValid is t
      → a < 64
      → Steady is a t
      → 8 * m ≤ length (remaining is t)
      → m < fuel
      → Progress is t done m (read_words is fuel a t done (8 * m))
  read_words_lem zero a t done m v b s l f = absurd (omega arith)
  read_words_lem (suc fuel) a t done m v b s l f = elim (Bool-cases (leb 8 m)) [
    | inr few ↦ no_progress is t done m _ v (word_stop fuel a t done m (ground arith))
    | inl more ↦
        let h : 8 ≤ m = ground arith in
        let (val, t', e, k, s') = shift_word_lem is a t v b s (omega arith) in
        more_progress is t t' done (bytes_of_64 val) m (m - 8) _ _ k (omega arith)
          (word_step fuel a t t' done m val h e)
          (read_words_lem fuel a t' (done ++ bytes_of_64 val) (m - 8) k.valid b s'
            (omega (arith, length-TookBytes is t t' (bytes_of_64 val) k)) (omega arith))
  ]

  -- The word that `shift_word` gives in the middle of the buffer.
  abbrev shifted : ℕ → (v w : ℕ) → List ℕ
  shifted a v w = bytes_of_64 (bit_or (u64 (shl v (64 - a))) (shr w a))

  abbrev at : BitInput is → (position current : ℕ) → BitInput is
  at t p c = record t { position = p; current = c }

  quad_step :
      (fuel a v1 v2 v3 v4 : ℕ) (t : BitInput is) (done : List ℕ) (m : ℕ)
      → 32 ≤ m
      → t.position + 32 < t.limit
      → uint64_of (drop t.position t.buffer) ≡ ok v1
      → uint64_of (drop (t.position + 8) t.buffer) ≡ ok v2
      → uint64_of (drop (t.position + 16) t.buffer) ≡ ok v3
      → uint64_of (drop (t.position + 24) t.buffer) ≡ ok v4
      → read_quads is (suc fuel) a t done (8 * m)
        ≡ read_quads is fuel a
            (at t (t.position + 32) v4)
            (done
              ++ (shifted a t.current v1
                  ++ (shifted a v1 v2 ++ (shifted a v2 v3 ++ shifted a v3 v4))))
            (8 * (m - 32))
  unfolding read_quads
  quad_step fuel a v1 v2 v3 v4 t done m h k e1 e2 e3 e4 =
      let more : leb 256 (8 * m) ≡ true = ground arith in
      let inside : leb t.limit (t.position + 32) ≡ false = ground arith in
      let less : 8 * m - 256 ≡ 8 * (m - 32) = omega arith in
      rw (more, read_quads)
        (rw (inside, read_quads)
          (rw (e1, read_quads)
            (rw (e2, read_quads)
              (rw (e3, read_quads)
                (rw (e4, read_quads)
                  (ap
                    (read_quads is fuel a (at t (t.position + 32) v4) (
                      done
                      ++ (shifted a t.current v1
                          ++ (shifted a v1 v2 ++ (shifted a v2 v3 ++ shifted a v3 v4)))))
                    less))))))

  end_step :
      (fuel a : ℕ) (t t' : BitInput is) (done : List ℕ) (m val : ℕ)
      → 32 ≤ m
      → t.limit ≤ t.position + 32
      → shift_word is a t ≡ ok (val, t')
      → read_quads is (suc fuel) a t done (8 * m)
        ≡ read_quads is fuel a t' (done ++ bytes_of_64 val) (8 * (m - 8))
  unfolding read_quads
  end_step fuel a t t' done m val h k e =
      let more : leb 256 (8 * m) ≡ true = ground arith in
      let outside : leb t.limit (t.position + 32) ≡ true = ground arith in
      let less : 8 * m - 64 ≡ 8 * (m - 8) = omega arith in
      rw (more, read_quads)
        (rw (outside, read_quads)
          (rw (e, read_quads) (ap (read_quads is fuel a t' (done ++ bytes_of_64 val)) less)))

  quad_stop :
      (fuel a : ℕ) (t : BitInput is) (done : List ℕ) (m : ℕ)
      → m < 32
      → read_quads is (suc fuel) a t done (8 * m) ≡ ok (t, done, 8 * m)
  unfolding read_quads
  quad_stop fuel a t done m h =
      let few : leb 256 (8 * m) ≡ false = ground arith in rw (few, read_quads) refl

  -- Four words of the buffer at once.
  four_words :
      (a : ℕ) (t : BitInput is)
      → IsValid is t
      → a < 64
      → t.avail_bits ≡ a
      → t.position + 32 ≤ t.limit
      → (v1 v2 v3 v4 : ℕ) × (uint64_of (drop t.position t.buffer) ≡ ok v1)
        × (uint64_of (drop (t.position + 8) t.buffer) ≡ ok v2)
        × (uint64_of (drop (t.position + 16) t.buffer) ≡ ok v3)
        × (uint64_of (drop (t.position + 24) t.buffer) ≡ ok v4)
        × TookBytes is t
            (at t (t.position + 32) v4)
            (shifted a t.current v1 ++ (shifted a v1 v2 ++ (shifted a v2 v3 ++ shifted a v3 v4)))
  four_words a t v b e h =
      let p = t.position in
      let within = v.within in
      let word = λ (q : ℕ) (k : q + 8 ≤ length t.buffer).
        word_lem (drop q t.buffer) (drop-IsBytes q t.buffer v.bytes)
          (omega (arith, length-drop q t.buffer)) in
      let w1 = word p (omega arith) in
      let w2 = word (p + 8) (omega arith) in
      let w3 = word (p + 16) (omega arith) in
      let w4 = word (p + 24) (omega arith) in
      let k1 = buffer_word_lem is t (p + 8) a w1 v e b refl (omega arith) in
      let k2 =
        buffer_word_lem is (at t (p + 8) w1.val) (p + 16) a w2 k1.valid e b (omega arith)
          (omega arith) in
      let k3 =
        buffer_word_lem is (at t (p + 16) w2.val) (p + 24) a w3 k2.valid e b (omega arith)
          (omega arith) in
      let k4 =
        buffer_word_lem is (at t (p + 24) w3.val) (p + 32) a w4 k3.valid e b (omega arith)
          (omega arith) in
      (
        w1.val,
        w2.val,
        w3.val,
        w4.val,
        w1.returns,
        w2.returns,
        w3.returns,
        w4.returns,
        trans-TookBytes is _ _ _ _ _ k1
            (trans-TookBytes is _ _ _ _ _ k2 (trans-TookBytes is _ _ _ _ _ k3 k4)),
      )

  read_quads_lem :
      (fuel a : ℕ) (t : BitInput is) (done : List ℕ) (m : ℕ)
      → IsValid is t
      → a < 64
      → Steady is a t
      → 8 * m ≤ length (remaining is t)
      → m < fuel
      → (p : Progress is t done m (read_quads is fuel a t done (8 * m))) × Steady is a p.after
  unfolding no_progress more_progress
  read_quads_lem zero a t done m v b s l f = absurd (omega arith)
  read_quads_lem (suc fuel) a t done m v b s l f = elim (Bool-cases (leb 32 m)) [
    | inr few ↦ (no_progress is t done m _ v (quad_stop fuel a t done m (ground arith)), s)
    | inl more ↦
        let h : 32 ≤ m = ground arith in
        elim (Bool-cases (leb t.limit (t.position + 32))) [
          | inl outside ↦
              let (val, t', e, k, s') = shift_word_lem is a t v b s (omega arith) in
              let (p, s'') =
                read_quads_lem fuel a t' (done ++ bytes_of_64 val) (m - 8) k.valid b s'
                  (omega (arith, length-TookBytes is t t' (bytes_of_64 val) k)) (omega arith) in
              (
                more_progress is t t' done (bytes_of_64 val) m (m - 8) _ _ k (omega arith)
                    (end_step fuel a t t' done m val h (ground arith) e) p,
                s'',
              )
          | inr inside ↦
              let k : t.position + 32 < t.limit = ground arith in
              let e = same_avail is a t s (omega arith) in
              let (v1, v2, v3, v4, e1, e2, e3, e4, w) = four_words a t v b e (omega arith) in
              let xs =
                shifted a t.current v1
                ++ (shifted a v1 v2 ++ (shifted a v2 v3 ++ shifted a v3 v4)) in
              let (p, s') =
                read_quads_lem fuel a (at t (t.position + 32) v4) (done ++ xs) (m - 32) w.valid b
                  (kept-Steady is a (at t (t.position + 32) v4) e)
                  (omega (arith, length-TookBytes is t (at t (t.position + 32) v4) xs w))
                  (omega arith) in
              (
                more_progress is t (at t (t.position + 32) v4) done xs m (m - 32) _ _ w
                    (omega arith) (quad_step fuel a v1 v2 v3 v4 t done m h k e1 e2 e3 e4) p,
                s',
              )
        ]
  ]

  unaligned_eq :
      (t t' : BitInput is) (done : List ℕ) (n n' : ℕ)
      → read_quads is (suc n) t.avail_bits t [] n ≡ ok (t', done, n')
      → read_unaligned is t n ≡ read_words is (suc n') t.avail_bits t' done n'
  unfolding read_unaligned
  unaligned_eq t t' done n n' e = rw e refl

  -- Off the byte boundary, all but fewer than eight bytes may be read; what is read is what comes next.
  pub read_unaligned_lem :
      (t : BitInput is) (m : ℕ)
      → IsValid is t
      → t.avail_bits < 64
      → 8 * m ≤ length (remaining is t)
      → Progress is t [] m (read_unaligned is t (8 * m))
  read_unaligned_lem t m v b l =
      let (p, s) =
        read_quads_lem (suc (8 * m)) t.avail_bits t [] m v b (kept-Steady is t.avail_bits t refl) l
          (omega arith) in
      let bound = p.bound in
      let m1 = m - length p.xs in
      more_progress is t p.after [] p.xs m m1 _ _ p.took (omega arith)
        (unaligned_eq t p.after p.xs (8 * m) (8 * m1) p.returns)
        (read_words_lem (suc (8 * m1)) t.avail_bits p.after p.xs m1 p.took.valid b s
          (omega (arith, length-TookBytes is t p.after p.xs p.took)) (omega arith))
