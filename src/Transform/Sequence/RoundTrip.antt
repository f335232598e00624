-- ===== src/Transform/Sequence/RoundTrip.antt =====
-- The calls of `Forward` and `Inverse` of a sequence as a whole.
use kanzi_go.Base.{
  ℕ, zero, suc, ◌+◌, ◌<◌, ◌≤◌, ◌≡◌, refl, sym, ap, ◌∙◌, arith, true, false, ltb, ◌==◌,
  if◌then◌else◌, List, [], ◌∷◌, none, length, take, IsBytes, Bool-cases, inl, inr, ok, replicate,
  length-replicate,
}
use kanzi_go.Transform.Api.{Reply, overwrite, length-overwrite, take-overwrite}
use kanzi_go.Transform.Interface.{ByteTransform, slices}
use kanzi_go.Transform.Sequence.{
  SequenceReply, Progress, max_encoded_len, inverse_loop, skipped, forward, inverse, start,
  end_forward, end_inverse, odd,
}
use kanzi_go.Transform.Sequence.Flags.{skipped-mask}
use kanzi_go.Transform.Sequence.Stages.{Holds, slice_of-Holds, inverse_step-skipped}
use kanzi_go.Transform.Sequence.Induction.{
  AllReach, Stored, forward_loop-Stored, le-max_encoded_len,
}

take-more : (n : ℕ) (xs : List ℕ) → length xs ≤ n → take n xs ≡ xs
take-more zero [] h = refl
take-more zero (x ∷ xs) h = absurd (omega arith)
take-more (suc n) [] h = refl
take-more (suc n) (x ∷ xs) h = ap (λ r. x ∷ r) (take-more n xs (omega arith))

start-Holds :
    (flags limit : ℕ) (src spare dst : List ℕ)
    → length src < limit
    → length dst < limit
    → Holds (length dst) limit (start flags src spare dst) src
start-Holds flags limit src spare dst h k = record {
  fits = omega arith;
  at_start = take-more (length src) src (omega arith);
  len_eq = refl;
  in_small = h;
  out_small = k;
  dst_kept = refl;
  no_error = refl;
}

-- What `dst` is at the end, after the copy where there is one.
result : Progress → List ℕ → List ℕ
result s d = if odd s.swaps then s.in_.bytes else overwrite d s.out.bytes

result_lem :
    (dst_len limit : ℕ) (s : Progress) (d : List ℕ)
    → Holds dst_len limit s d
    → length d ≤ dst_len
    → (take s.len (result s d) ≡ d) × (length (result s d) ≡ dst_len)
unfolding result
result_lem dst_len limit s d h k = elim (Bool-cases (odd s.swaps)) [
  | inl e ↦ let kept = h.dst_kept in rw e (h.at_start, rw e at kept)
  | inr e ↦
      let kept = h.dst_kept in
      let m : length s.out.bytes ≡ dst_len = rw e at kept in
      rw e (
        ap (λ n. take n (overwrite d s.out.bytes)) h.len_eq ∙ take-overwrite d s.out.bytes,
        length-overwrite d s.out.bytes (omega (arith, m)) ∙ m,
      )
]

end_forward_lem :
    (dst_len limit block_size : ℕ) (s : Progress) (d : List ℕ)
    → Holds dst_len limit s d
    → length d ≤ dst_len
    → end_forward block_size s
      ≡ ok (record {
        flags = s.flags;
        reply = record { read = block_size; written = s.len; error = none; dst = result s d };
      })
unfolding end_forward result
end_forward_lem dst_len limit block_size s d h k = elim (Bool-cases (odd s.swaps)) [
  | inl e ↦ rw e refl
  | inr e ↦
      let kept = h.dst_kept in
      let m : length s.out.bytes ≡ dst_len = rw e at kept in
      let len = h.len_eq in
      let room : ltb (length s.out.bytes) s.len ≡ false = ground (arith, m, len) in
      rw e (rw room (rw (slice_of-Holds dst_len limit s d h) refl))
]

end_inverse_lem :
    (dst_len limit block_size : ℕ) (s : Progress) (d : List ℕ)
    → Holds dst_len limit s d
    → length d ≤ dst_len
    → end_inverse block_size s
      ≡ ok (record { read = block_size; written = s.len; error = none; dst = result s d })
unfolding end_inverse result
end_inverse_lem dst_len limit block_size s d h k = rw h.no_error (elim (Bool-cases (odd s.swaps)) [
  | inl e ↦ rw e refl
  | inr e ↦
      let kept = h.dst_kept in
      let m : length s.out.bytes ≡ dst_len = rw e at kept in
      let len = h.len_eq in
      let room : ltb (length s.out.bytes) s.len ≡ false = ground (arith, m, len) in
      rw e (rw room (rw (slice_of-Holds dst_len limit s d h) refl))
])

-- With every flag set, nothing happens.
inverse_loop-skipped :
    (dst_len i : ℕ) (ts : List ByteTransform) (u : Progress)
    → i + length ts ≤ 8
    → u.flags ≡ 0xFF
    → inverse_loop dst_len i ts u ≡ ok u
unfolding inverse_loop
inverse_loop-skipped dst_len i [] u h f = refl
inverse_loop-skipped dst_len i (t ∷ ts) u h f =
    let e = inverse_loop-skipped dst_len (i + 1) ts u (omega arith) f in
    let sk : skipped u.flags i ≡ true = ap (λ c. skipped c i) f ∙ skipped-mask i (omega arith) in
    rw e (inverse_step-skipped dst_len i t u sk)

-- A reply with no error that holds `src` at the start of a slice of `dst_len` bytes.
pub record Restored (r : Reply) (read : ℕ) (src : List ℕ) (dst_len : ℕ) : Type 0 where
  pub all_read : r.read ≡ read
  pub all_written : r.written ≡ length src
  pub no_error : r.error ≡ none
  pub bytes : take (length src) r.dst ≡ src
  pub kept_len : length r.dst ≡ dst_len

module _ (required limit : ℕ) (ts : List ByteTransform) (s : Progress) (src : List ℕ) (dst_len : ℕ)
    (eight : length ts ≤ 8) (src_small : length src ≤ required) (some_src : 0 < length src)
    (st : Stored required limit 0 ts s src dst_len) where
  -- All stages failed: the block is stored as it is.
  stored-src : st.final.flags ≡ 0xFF → required < limit → st.stored ≡ src
  stored-src f h =
      let b = st.bound in
      let dst = replicate required 0 in
      let l = length-replicate {A = ℕ} required 0 in
      let u = start st.final.flags st.stored [] dst in
      let held =
        start-Holds st.final.flags limit st.stored [] dst (omega arith) (omega (arith, l)) in
      let (u', e, h', f') =
        st.back u (length dst) (omega (arith, l)) (omega (arith, l)) held refl in
      let same : u ≡ u' = cc (inverse_loop-skipped (length dst) 0 ts u (omega arith) f, e) in
      sym held.at_start ∙ ap (λ v. take v.len v.in_.bytes) same ∙ h'.at_start

  inverse_lem :
      (spare dst : List ℕ)
      → required ≤ length dst
      → length dst < limit
      → (r : Reply) × (inverse
            (record { transforms = ts; skip_flags = st.final.flags })
            spare
            (slices st.stored dst)
          ≡ ok r)
        × Restored r (length st.stored) src (length dst)
  unfolding inverse
  inverse_lem spare dst h k =
      let pos = st.nonempty in
      let b = st.bound in
      let nonempty : (length st.stored == 0) ≡ false = ground (arith, pos) in
      let has_dst : (length dst == 0) ≡ false = ground (arith, pos, b) in
      elim (Bool-cases (st.final.flags == 0xFF)) [
        | inl e ↦
            let flags : st.final.flags ≡ 0xFF = ground arith in
            let same = stored-src flags (omega arith) in
            let whole : take (length dst) st.stored ≡ st.stored =
              take-more (length dst) st.stored (omega (arith, b)) in
            (
              record {
                read = length st.stored;
                written = length st.stored;
                error = none;
                dst = overwrite (take (length dst) st.stored) dst;
              },
              rw (nonempty, has_dst, e),
              record {
                all_read = refl;
                all_written = ap length same;
                no_error = refl;
                bytes = rw whole (rw same (take-overwrite src dst));
                kept_len = rw whole (length-overwrite st.stored dst (omega (arith, b)));
              },
            )
        | inr e ↦
            let u = start st.final.flags st.stored spare dst in
            let held = start-Holds st.final.flags limit st.stored spare dst (omega arith) k in
            let (u', run, h', f') = st.back u (length dst) h k held refl in
            let res = result_lem (length dst) limit u' src h' (omega arith) in
            let len = h'.len_eq in
            (
              record {
                read = length st.stored;
                written = u'.len;
                error = none;
                dst = result u' src;
              },
              rw (nonempty, has_dst, e)
                  (rw run (
                    end_inverse_lem (length dst) limit (length st.stored) u' src h' (omega arith))),
              record {
                all_read = refl;
                all_written = len;
                no_error = refl;
                bytes = ap (λ n. take n (result u' src)) (sym len) ∙ res.0;
                kept_len = res.1;
              },
            )
      ]

-- A sequence of at most eight transforms is lossless. For a nonempty block of bytes and slices with room
-- for `MaxEncodedLen` of it, all shorter than the bound to which each transform's own laws reach: `Forward`
-- returns with no error, has read the whole block and written at most `MaxEncodedLen` bytes; and `Inverse`
-- of these, with the skip flags that `Forward` left, restores the block, whichever of the transforms
-- failed, and whatever capacity the source slices have.
pub inverse-forward_sequence :
    (ts : List ByteTransform) (flags limit : ℕ) (src dst dst' spare spare' : List ℕ)
    → length ts ≤ 8
    → AllReach limit ts
    → IsBytes src
    → 0 < length src
    → max_encoded_len ts (length src) ≤ length dst
    → length dst < limit
    → max_encoded_len ts (length src) ≤ length dst'
    → length dst' < limit
    → (r : SequenceReply) × (forward
          (record { transforms = ts; skip_flags = flags })
          spare
          (slices src dst)
        ≡ ok r)
      × (r.reply.error ≡ none)
      × (r.reply.read ≡ length src)
      × (r.reply.written ≤ max_encoded_len ts (length src))
      × (r' : Reply) × (inverse
            (record { transforms = ts; skip_flags = r.flags })
            spare'
            (slices (take r.reply.written r.reply.dst) dst')
          ≡ ok r')
      × Restored r' r.reply.written src (length dst')
unfolding forward
inverse-forward_sequence ts flags limit src dst dst' spare spare' eight a b pos m k m' k' =
    let required = max_encoded_len ts (length src) in
    let le = le-max_encoded_len ts (length src) in
    let s = start 0xFF src spare dst in
    let st =
      forward_loop-Stored required (length dst) limit m k 0 (length src) ts s src (omega arith) a
        (omega arith) (omega arith) pos b (omega arith) (λ j u v. skipped-mask j v)
        (start-Holds 0xFF limit src spare dst (omega arith) k) in
    let bound = st.bound in
    let len = st.holds.len_eq in
    let nonempty : (length src == 0) ≡ false = ground arith in
    let has_dst : (length dst == 0) ≡ false = ground arith in
    let room : ltb (length dst) required ≡ false = ground arith in
    let res = result_lem (length dst) limit st.final st.stored st.holds (omega (arith, bound)) in
    let (r', e', back) =
      inverse_lem required limit ts s src (length dst) eight le pos st spare' dst' m' k' in
    (
      record {
        flags = st.final.flags;
        reply = record {
          read = length src;
          written = st.final.len;
          error = none;
          dst = result st.final st.stored;
        };
      },
      rw (nonempty, has_dst, room)
          (rw st.returns (
            end_forward_lem (length dst) limit (length src) st.final st.stored st.holds
              (omega (arith, bound)))),
      refl,
      refl,
      omega (arith, bound, len),
      r',
      rw res.0 e',
      rw len back,
    )
