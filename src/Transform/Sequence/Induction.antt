-- ===== src/Transform/Sequence/Induction.antt =====
-- The loops of a sequence forth and back, by induction on the transforms.
use kanzi_go.Base.{
  ℕ, ◌+◌, ◌<◌, ◌≤◌, ◌≡◌, refl, ap, ◌∙◌, arith, true, false, ltb, if◌then◌else◌, List, [], ◌∷◌,
  length, take, IsBytes, inl, inr, Option-cases, Exec, ok, length-take,
}
use kanzi_go.Transform.Interface.{ByteTransform, Wrote, slices}
use kanzi_go.Transform.Sequence.{
  Progress, grow, max_encoded_len, forward_loop, inverse_loop, after_forward, skipped, clear_flag,
}
use kanzi_go.Transform.Sequence.Flags.{skipped-clear_self, skipped-clear_other, clear_flag-IsByte}
use kanzi_go.Transform.Sequence.Stages.{
  Holds, slice_of-Holds, grow-bounds, forward_failed-Holds, forward_done-Holds, inverse_step-Holds,
  inverse_step-skipped,
}

-- The laws of each transform reach to slices of fewer than `limit` bytes.
abbrev pub AllReach : ℕ → List ByteTransform → Type 0
AllReach limit [] = Unit {0}
AllReach limit (t ∷ ts) = (limit ≤ t.limit) × AllReach limit ts

abbrev grown : ByteTransform → ℕ → ℕ
grown t n = if ltb n (t.max_encoded_len n) then t.max_encoded_len n else n

pub le-max_encoded_len : (ts : List ByteTransform) (n : ℕ) → n ≤ max_encoded_len ts n
unfolding max_encoded_len
le-max_encoded_len [] n = omega arith
le-max_encoded_len (t ∷ ts) n =
    let h = le-max_encoded_len ts (grown t n) in
    let g : n ≤ grown t n = ground arith in omega (arith, h, g)

stage-max_encoded_len :
    (t : ByteTransform) (ts : List ByteTransform) (n : ℕ)
    → t.max_encoded_len n ≤ max_encoded_len (t ∷ ts) n
unfolding max_encoded_len
stage-max_encoded_len t ts n =
    let h = le-max_encoded_len ts (grown t n) in
    let g : t.max_encoded_len n ≤ grown t n = ground arith in omega (arith, h, g)

max_encoded_len-cons :
    (t : ByteTransform) (ts : List ByteTransform) (n : ℕ)
    → max_encoded_len (t ∷ ts) n ≡ max_encoded_len ts (grown t n)
unfolding max_encoded_len
max_encoded_len-cons t ts n = refl

-- What the loop of `Forward` leaves: the stored bytes, and that the loop of `Inverse` with the flags that
-- it leaves restores `d` from them, in whatever buffers.
pub record Stored (required limit i : ℕ) (ts : List ByteTransform) (s : Progress) (d : List ℕ)
    (dst_len : ℕ) : Type 0 where
  pub final : Progress
  pub returns : forward_loop required i ts s ≡ ok final
  pub stored : List ℕ
  pub holds : Holds dst_len limit final stored
  pub nonempty : 0 < length stored
  pub stored_bytes : IsBytes stored
  pub bound : length stored ≤ required
  pub flags_byte : final.flags < 256
  pub flags_kept : (j : ℕ) → j < i → skipped final.flags j ≡ skipped s.flags j
  pub back :
      (u : Progress) (dst_len' : ℕ)
      → required ≤ dst_len'
      → dst_len' < limit
      → Holds dst_len' limit u stored
      → u.flags ≡ final.flags
      → (u' : Progress) × (inverse_loop dst_len' i ts u ≡ ok u')
        × Holds dst_len' limit u' d
        × (u'.flags ≡ u.flags)

module _ (required dst_len limit : ℕ) (fit : required ≤ dst_len) (small : dst_len < limit) where
  -- The transform of index `i` failed.
  stage_failed :
      (i : ℕ) (t : ByteTransform) (ts : List ByteTransform) (s s1 : Progress) (d : List ℕ)
      → i < 8
      → ((r : Exec Progress)
          → forward_loop required (i + 1) ts s1 ≡ r
          → forward_loop required i (t ∷ ts) s ≡ r)
      → s1.flags ≡ s.flags
      → skipped s.flags i ≡ true
      → Stored required limit (i + 1) ts s1 d dst_len
      → Stored required limit i (t ∷ ts) s d dst_len
  stage_failed i t ts s s1 d p e fl sk st =
      let set : skipped st.final.flags i ≡ true =
        st.flags_kept i (omega arith) ∙ ap (λ f. skipped f i) fl ∙ sk in
      record {
        final = st.final;
        returns = e (ok st.final) st.returns;
        stored = st.stored;
        holds = st.holds;
        nonempty = st.nonempty;
        stored_bytes = st.stored_bytes;
        bound = st.bound;
        flags_byte = st.flags_byte;
        flags_kept = λ j h. st.flags_kept j (omega arith) ∙ ap (λ f. skipped f j) fl;
        back = λ u m q q' h f.
            let (u', r, h', f') = st.back u m q q' h f in
            (
              u',
              unfold inverse_loop in
                  rw r (inverse_step-skipped m i t u' (ap (λ g. skipped g i) (f' ∙ f) ∙ set)),
              h',
              f',
            );
      }

  -- It succeeded, on data `d` that its inverse restores from `d1`.
  stage_done :
      (i : ℕ) (t : ByteTransform) (ts : List ByteTransform) (s s1 : Progress) (d d1 : List ℕ)
      → i < 8
      → s.flags < 256
      → ((r : Exec Progress)
          → forward_loop required (i + 1) ts s1 ≡ r
          → forward_loop required i (t ∷ ts) s ≡ r)
      → s1.flags ≡ clear_flag s.flags i
      → length d ≤ required
      → ((dst : List ℕ)
          → length d ≤ length dst
          → length dst < limit
          → Wrote (t.inverse (slices d1 dst)) (length dst) d)
      → Stored required limit (i + 1) ts s1 d1 dst_len
      → Stored required limit i (t ∷ ts) s d dst_len
  stage_done i t ts s s1 d d1 p b e fl len_d restores st =
      let clear : skipped st.final.flags i ≡ false =
        st.flags_kept i (omega arith)
        ∙ ap (λ f. skipped f i) fl
        ∙ skipped-clear_self s.flags i b p in
      record {
        final = st.final;
        returns = e (ok st.final) st.returns;
        stored = st.stored;
        holds = st.holds;
        nonempty = st.nonempty;
        stored_bytes = st.stored_bytes;
        bound = st.bound;
        flags_byte = st.flags_byte;
        flags_kept = λ j h.
            st.flags_kept j (omega arith)
            ∙ ap (λ f. skipped f j) fl
            ∙ skipped-clear_other s.flags i j b p (omega arith) (omega arith);
        back = λ u m q q' h f.
            let (u', r, h', f') = st.back u m q q' h f in
            let (u'', r', h'', f'') =
              inverse_step-Holds m limit i t u' d1 d q' h' (ap (λ g. skipped g i) (f' ∙ f) ∙ clear)
                (λ dst k k'. restores dst (omega arith) k') in
            (u'', (unfold inverse_loop in rw (r, r')), h'', f'' ∙ f');
      }

  pub forward_loop-Stored :
      (i n : ℕ) (ts : List ByteTransform) (s : Progress) (d : List ℕ)
      → i + length ts ≤ 8
      → AllReach limit ts
      → max_encoded_len ts n ≤ required
      → length d ≤ n
      → 0 < length d
      → IsBytes d
      → s.flags < 256
      → ((j : ℕ) → i ≤ j → j < 8 → skipped s.flags j ≡ true)
      → Holds dst_len limit s d
      → Stored required limit i ts s d dst_len
  unfolding forward_loop inverse_loop
  forward_loop-Stored i n [] s d p a m l pos b f sk h = record {
    final = s;
    returns = refl;
    stored = d;
    holds = h;
    nonempty = pos;
    stored_bytes = b;
    bound = omega (arith, le-max_encoded_len [] n);
    flags_byte = f;
    flags_kept = λ j k. refl;
    back = λ u m' q q' h' e. (u, refl, h', refl);
  }
  forward_loop-Stored i n (t ∷ ts) s d p a m l pos b f sk h =
      let reach = a.0 in
      let g = grow-bounds required limit s.out (omega arith) h.out_small in
      let le_n = le-max_encoded_len (t ∷ ts) n in
      let room : t.max_encoded_len (length d) ≤ length (grow required s.out).bytes =
        omega (arith, t.max_encoded_len_mono (length d) n l, stage-max_encoded_len t ts n, g.0) in
      let in_limit : length d < t.limit = omega arith in
      let out_limit : length (grow required s.out).bytes < t.limit = omega (arith, g.1) in
      let (r, e, kept) =
        t.forward_returns d (grow required s.out).bytes b pos in_limit room out_limit in
      let s1 = after_forward i s (grow required s.out) r in
      let rest : max_encoded_len ts (grown t n) ≤ required = rw⁻¹ (max_encoded_len-cons t ts n) m in
      let bound : n ≤ grown t n = ground arith in
      let bound' : t.max_encoded_len n ≤ grown t n = ground arith in
      let run : (x : Exec Progress)
          → forward_loop required (i + 1) ts s1 ≡ x
          → forward_loop required i (t ∷ ts) s ≡ x =
        λ x q. rw (slice_of-Holds dst_len limit s d h) (rw e q) in
      elim (Option-cases r.error) [
        | inr (err, failed) ↦
            let (h1, f1) =
              forward_failed-Holds required dst_len limit i s d r err fit (omega arith) h kept
                failed in
            stage_failed i t ts s s1 d (omega arith) run f1 (sk i (omega arith) (omega arith)) (
              forward_loop-Stored (i + 1) (grown t n) ts s1 d (omega arith) a.1 rest (omega arith)
                pos b (rw f1 f) (λ j u v. ap (λ c. skipped c j) f1 ∙ sk j (omega arith) v) h1)
        | inl success ↦
            let (w0, w1, w2) =
              t.forward_writes d (grow required s.out).bytes r b pos in_limit room out_limit e
                success in
            let mono = t.max_encoded_len_mono (length d) n l in
            let (h1, f1) =
              forward_done-Holds required dst_len limit i s d r fit (omega arith) h kept success
                (omega (arith, w1, room, kept)) in
            let len1 = h1.len_eq in
            let len2 = length-take r.written r.dst in
            let d1_len : length (take r.written r.dst) ≡ r.written =
              omega (arith, len2, w1, room, kept) in
            stage_done i t ts s s1 d (take r.written r.dst) (omega arith) f run f1 (omega arith)
              (λ dst k k'.
                t.inverse_restores d (grow required s.out).bytes r b pos in_limit room out_limit e
                  success dst k (omega arith))
              (forward_loop-Stored (i + 1) (grown t n) ts s1 (take r.written r.dst) (omega arith)
                a.1 rest (omega (arith, d1_len, w1, mono, bound')) (omega (arith, d1_len, w0)) w2
                (rw f1 (clear_flag-IsByte s.flags i f (omega arith)))
                (λ j u v.
                  ap (λ c. skipped c j) f1
                  ∙ skipped-clear_other s.flags i j f (omega arith) v (omega arith)
                  ∙ sk j (omega arith) v)
                h1)
      ]
