-- ===== src/Transform/Sequence/Stages.antt =====
-- The buffers between the stages of a sequence.
use kanzi_go.Base.{
  ℕ, zero, suc, ◌+◌, ◌<◌, ◌≤◌, ◌≡◌, refl, ap, ◌∙◌, arith, true, false, leb, if◌then◌else◌, List, [],
  ◌∷◌, ◌++◌, Option, none, some, length, take, length-append, length-take, length-replicate, ok,
  Bool-cases, inl, inr,
}
use kanzi_go.Transform.Api.{Error, Reply}
use kanzi_go.Transform.Interface.{ByteTransform, Wrote, slices}
use kanzi_go.Transform.Sequence.{
  Buffer, Progress, grow, slice_of, after_forward, after_inverse, inverse_step, inverse_round,
  skipped, odd, clear_flag,
}

-- The slice that is `dst`.
abbrev pub dst_of : Progress → List ℕ
dst_of s = if odd s.swaps then s.in_.bytes else s.out.bytes

-- The bytes `d` are the data between two stages; `dst` has `dst_len` bytes, no slice `limit` or more.
pub record Holds (dst_len limit : ℕ) (s : Progress) (d : List ℕ) : Type 0 where
  pub fits : s.len ≤ length s.in_.bytes
  pub at_start : take s.len s.in_.bytes ≡ d
  pub len_eq : s.len ≡ length d
  pub in_small : length s.in_.bytes < limit
  pub out_small : length s.out.bytes < limit
  pub dst_kept : length (dst_of s) ≡ dst_len
  pub no_error : s.err ≡ none

take-append : (n : ℕ) (xs ys : List ℕ) → n ≤ length xs → take n (xs ++ ys) ≡ take n xs
take-append zero xs ys h = refl
take-append (suc n) [] ys h = absurd (omega arith)
take-append (suc n) (x ∷ xs) ys h = ap (λ r. x ∷ r) (take-append n xs ys (omega arith))

pub slice_of-Holds :
    (dst_len limit : ℕ) (s : Progress) (d : List ℕ)
    → Holds dst_len limit s d
    → slice_of s.len s.in_ ≡ ok d
unfolding slice_of
slice_of-Holds dst_len limit s d h =
    let f = h.fits in
    let room : leb s.len (length s.in_.bytes + length s.in_.hidden) ≡ true = ground arith in
    rw room (ap ok (take-append s.len s.in_.bytes s.in_.hidden f ∙ h.at_start))

pub grow-bounds :
    (size limit : ℕ) (b : Buffer)
    → size < limit
    → length b.bytes < limit
    → (size ≤ length (grow size b).bytes) × (length (grow size b).bytes < limit)
unfolding grow
grow-bounds size limit b h k = elim (Bool-cases (leb size (length b.bytes))) [
  | inl e ↦ rw e (ground arith, k)
  | inr e ↦ elim (Bool-cases (leb size (length b.bytes + length b.hidden))) [
    | inl e' ↦
        let l = length-take size (b.bytes ++ b.hidden) in
        let m = length-append b.bytes b.hidden in
        let fit : size ≤ length b.bytes + length b.hidden = ground arith in
        rw (e, e') (omega (arith, l, m, fit), omega (arith, l, m, fit))
    | inr e' ↦
        let l = length-replicate {A = ℕ} size 0 in rw (e, e') (omega (arith, l), omega (arith, l))
  ]
]

pub grow-large : (size : ℕ) (b : Buffer) → size ≤ length b.bytes → grow size b ≡ b
unfolding grow
grow-large size b h = let e : leb size (length b.bytes) ≡ true = ground arith in rw e

-- `dst` has the same length behind a call on the grown `out`.
dst_swapped :
    (size dst_len : ℕ) (s : Progress) (bytes : List ℕ)
    → size ≤ dst_len
    → length (dst_of s) ≡ dst_len
    → length bytes ≡ length (grow size s.out).bytes
    → length (if odd (s.swaps + 1) then bytes else s.in_.bytes) ≡ dst_len
dst_swapped size dst_len s bytes h k l = elim (Bool-cases (odd s.swaps)) [
  | inl e ↦ let e' : odd (s.swaps + 1) ≡ false = ground arith in rw e' (rw e at k)
  | inr e ↦
      let e' : odd (s.swaps + 1) ≡ true = ground arith in
      let m : length s.out.bytes ≡ dst_len = rw e at k in
      rw e' (l ∙ ap (λ b. length b.bytes) (grow-large size s.out (omega (arith, m))) ∙ m)
]

dst_unswapped :
    (size dst_len : ℕ) (s : Progress) (bytes : List ℕ)
    → size ≤ dst_len
    → length (dst_of s) ≡ dst_len
    → length bytes ≡ length (grow size s.out).bytes
    → length (if odd s.swaps then s.in_.bytes else bytes) ≡ dst_len
dst_unswapped size dst_len s bytes h k l = elim (Bool-cases (odd s.swaps)) [
  | inl e ↦ rw e (rw e at k)
  | inr e ↦
      let m : length s.out.bytes ≡ dst_len = rw e at k in
      rw e (l ∙ ap (λ b. length b.bytes) (grow-large size s.out (omega (arith, m))) ∙ m)
]

-- A stage that failed leaves the data,
pub forward_failed-Holds :
    (size dst_len limit i : ℕ) (s : Progress) (d : List ℕ) (r : Reply) (e : Error)
    → size ≤ dst_len
    → size < limit
    → Holds dst_len limit s d
    → length r.dst ≡ length (grow size s.out).bytes
    → r.error ≡ some e
    → Holds dst_len limit (after_forward i s (grow size s.out) r) d
      × ((after_forward i s (grow size s.out) r).flags ≡ s.flags)
unfolding after_forward
forward_failed-Holds size dst_len limit i s d r e p q h l f =
    rw (f, after_forward)
      (
        record {
          fits = h.fits;
          at_start = h.at_start;
          len_eq = h.len_eq;
          in_small = h.in_small;
          out_small = omega (arith, l, (grow-bounds size limit s.out q h.out_small).1);
          dst_kept = dst_unswapped size dst_len s r.dst p h.dst_kept l;
          no_error = refl;
        },
        refl,
      )

-- one that succeeded has written them,
pub forward_done-Holds :
    (size dst_len limit i : ℕ) (s : Progress) (d : List ℕ) (r : Reply)
    → size ≤ dst_len
    → size < limit
    → Holds dst_len limit s d
    → length r.dst ≡ length (grow size s.out).bytes
    → r.error ≡ none
    → r.written ≤ length r.dst
    → Holds dst_len limit (after_forward i s (grow size s.out) r) (take r.written r.dst)
      × ((after_forward i s (grow size s.out) r).flags ≡ clear_flag s.flags i)
unfolding after_forward
forward_done-Holds size dst_len limit i s d r p q h l f w =
    rw (f, after_forward)
      (
        record {
          fits = w;
          at_start = refl;
          len_eq = omega (arith, length-take r.written r.dst);
          in_small = omega (arith, l, (grow-bounds size limit s.out q h.out_small).1);
          out_small = h.in_small;
          dst_kept = dst_swapped size dst_len s r.dst p h.dst_kept l;
          no_error = refl;
        },
        refl,
      )

-- and its inverse writes the data that it had.
pub inverse_step-Holds :
    (dst_len limit i : ℕ) (t : ByteTransform) (s : Progress) (d original : List ℕ)
    → dst_len < limit
    → Holds dst_len limit s d
    → skipped s.flags i ≡ false
    → ((dst : List ℕ)
        → dst_len ≤ length dst
        → length dst < limit
        → Wrote (t.inverse (slices d dst)) (length dst) original)
    → (s' : Progress) × (inverse_step dst_len i t s ≡ ok s')
      × Holds dst_len limit s' original
      × (s'.flags ≡ s.flags)
unfolding inverse_step inverse_round after_inverse
inverse_step-Holds dst_len limit i t s d original p h run restores =
    let g = grow-bounds dst_len limit s.out p h.out_small in
    let w = restores (grow dst_len s.out).bytes g.0 g.1 in
    let fits = w.fits in
    let kept = w.kept_len in
    (
      record {
        flags = s.flags;
        len = w.reply.written;
        in_ = record { bytes = w.reply.dst; hidden = (grow dst_len s.out).hidden };
        out = s.in_;
        swaps = s.swaps + 1;
        err = none;
      },
      rw h.no_error (
          rw (run, inverse_round)
            (rw (slice_of-Holds dst_len limit s d h)
              (rw w.returns (rw (w.no_error, after_inverse) refl)))),
      record {
        fits = omega (arith, fits, kept);
        at_start = w.bytes_written;
        len_eq = w.written_len;
        in_small = omega (arith, kept, g.1);
        out_small = h.in_small;
        dst_kept = dst_swapped dst_len dst_len s w.reply.dst (omega arith) h.dst_kept kept;
        no_error = refl;
      },
      refl,
    )

inverse_round-skipped :
    (dst_len i : ℕ) (t : ByteTransform) (s : Progress) (o : Option Error)
    → skipped s.flags i ≡ true
    → inverse_round dst_len i t s o ≡ ok s
unfolding inverse_round
inverse_round-skipped dst_len i t s (some e) run = refl
inverse_round-skipped dst_len i t s none run = rw (run, inverse_round)

pub inverse_step-skipped :
    (dst_len i : ℕ) (t : ByteTransform) (s : Progress)
    → skipped s.flags i ≡ true
    → inverse_step dst_len i t s ≡ ok s
unfolding inverse_step
inverse_step-skipped dst_len i t s run = inverse_round-skipped dst_len i t s s.err run
