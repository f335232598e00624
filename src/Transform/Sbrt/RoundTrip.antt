-- ===== src/Transform/Sbrt/RoundTrip.antt =====
-- `Forward`, then `Inverse`: the same symbols take the same ranks on both sides.
use kanzi_go.Base.{
  ℕ, suc, ◌+◌, ◌<◌, ◌≤◌, ◌≡◌, refl, sym, ap, ◌∙◌, arith, List, [], ◌∷◌, ◌++◌, none, length,
  length-append, ltb, ◌==◌, false, take, take-length-append, drop, append_assoc, append-nil, ok,
  IsBytes,
}
use kanzi_go.Base.Arrays.{update}
use kanzi_go.Transform.Api.{Slices, put, overwrite}
use kanzi_go.Transform.Sbrt.{
  Sbrt, Ranks, move_up, settle, forward_loop, inverse_loop, forward, inverse, success, new_time,
  zeros, identity, max_encoded_len,
}
use kanzi_go.Transform.Sbrt.Bijection.{Inverses, move_up-Inverses, move_symbol-move_up}

-- The ranks that `Forward` writes for `src`.
pub ranks_of : Sbrt → (i : ℕ) → (p q : ℕ → ℕ) → Ranks → List ℕ → List ℕ
ranks_of t i p q a [] = []
ranks_of t i p q a (c ∷ src) =
    let qc = new_time t i (p c) in
    let q' = update q c qc in
    a.s2r c ∷ ranks_of t (i + 1) (update p c i) q' (settle c (move_up q' qc (a.s2r c) a)) src

length-ranks_of :
    (t : Sbrt) (i : ℕ) (p q : ℕ → ℕ) (a : Ranks) (src : List ℕ)
    → length (ranks_of t i p q a src) ≡ length src
unfolding ranks_of
length-ranks_of t i p q a [] = refl
length-ranks_of t i p q a (c ∷ src) = ap suc (length-ranks_of t (i + 1) _ _ _ src)

ranks_of-IsBytes :
    (t : Sbrt) (i : ℕ) (p q : ℕ → ℕ) (a : Ranks) (src : List ℕ)
    → Inverses a
    → IsBytes src
    → IsBytes (ranks_of t i p q a src)
unfolding ranks_of
ranks_of-IsBytes t i p q a [] v b = tt
ranks_of-IsBytes t i p q a (c ∷ src) v b =
    (v.bounded c b.0, ranks_of-IsBytes t (i + 1) _ _ _ src (move_up-Inverses _ _ c a b.0 v) b.1)

put-room :
    (dst_len : ℕ) (out : List ℕ) (b : ℕ)
    → length out < dst_len
    → put dst_len out b ≡ ok (out ++ (b ∷ []))
put-room dst_len out b h = ground arith

forward_loop_lem :
    (t : Sbrt) (dst_len i : ℕ) (p q : ℕ → ℕ) (a : Ranks) (src out : List ℕ)
    → length out + length src ≤ dst_len
    → forward_loop t dst_len i p q a src out ≡ ok (out ++ ranks_of t i p q a src)
unfolding forward_loop ranks_of
forward_loop_lem t dst_len i p q a [] out h = ap ok (sym (append-nil out))
forward_loop_lem t dst_len i p q a (c ∷ src) out h =
    rw (put-room dst_len out (a.s2r c) (omega arith)) (
      forward_loop_lem t dst_len (i + 1) _ _ _ src (out ++ (a.s2r c ∷ []))
        (omega (arith, length-append out (a.s2r c ∷ [])))
      ∙ ap ok (append_assoc out (a.s2r c ∷ []) _))

inverse_loop_lem :
    (t : Sbrt) (dst_len i : ℕ) (p q : ℕ → ℕ) (a : Ranks) (src out : List ℕ)
    → Inverses a
    → IsBytes src
    → length out + length src ≤ dst_len
    → inverse_loop t dst_len i p q a.r2s (ranks_of t i p q a src) out ≡ ok (out ++ src)
unfolding inverse_loop ranks_of
inverse_loop_lem t dst_len i p q a [] out v b h = ap ok (sym (append-nil out))
inverse_loop_lem t dst_len i p q a (c ∷ src) out v b h =
    let qc = new_time t i (p c) in
    let q' = update q c qc in
    let rest =
      inverse_loop_lem t dst_len (i + 1) (update p c i) q' (settle c (move_up q' qc (a.s2r c) a))
        src (out ++ (c ∷ [])) (move_up-Inverses q' qc c a b.0 v) b.1
        (omega (arith, length-append out (c ∷ []))) in
    rw (v.symbol c) (
      rw (put-room dst_len out c (omega arith)) (
        rw (move_symbol-move_up q' qc c (a.s2r c) a)
          (rest ∙ ap ok (append_assoc out (c ∷ []) src))))

identity-Inverses : Inverses (record { s2r = identity; r2s = identity })
identity-Inverses = record { symbol = λ x. refl; rank = λ j. refl; bounded = λ x h. h }

-- The ranks that `Forward` writes for a whole block.
abbrev pub block_ranks : Sbrt → List ℕ → List ℕ
block_ranks t src = ranks_of t 0 zeros zeros (record { s2r = identity; r2s = identity }) src

abbrev pub slices : List ℕ → List ℕ → Slices
slices src dst = record { src = src; dst = dst; same = false }

-- For any masks and shift, so in every mode, a nonempty block of bytes, a slice `dst` with room
-- for `MaxEncodedLen` and a slice `dst'` with room for the block: `Forward` returns without a
-- panic and without an error, having read the block and written as many bytes; `Inverse` of what
-- it wrote restores the block in `dst'`, and neither touches its slice behind what it writes.
pub inverse-forward_ranks :
    (t : Sbrt) (src dst dst' : List ℕ)
    → IsBytes src
    → 0 < length src
    → max_encoded_len (length src) ≤ length dst
    → length src ≤ length dst'
    → (ranks : List ℕ) × (forward t (slices src dst)
        ≡ ok (record {
          read = length src;
          written = length src;
          error = none;
          dst = overwrite ranks dst;
        }))
      × (length ranks ≡ length src)
      × IsBytes ranks
      × (inverse t (slices (take (length src) (overwrite ranks dst)) dst')
          ≡ ok (record {
            read = length src;
            written = length src;
            error = none;
            dst = overwrite src dst';
          }))
unfolding forward inverse success
inverse-forward_ranks t src dst dst' b p h h' =
    let l = length-ranks_of t 0 zeros zeros (record { s2r = identity; r2s = identity }) src in
    let nonempty : (length src == 0) ≡ false = ground arith in
    let has_dst : (length dst == 0) ≡ false = ground arith in
    let has_dst' : (length dst' == 0) ≡ false = ground arith in
    let room : ltb (length dst) (length src + 32) ≡ false = ground arith in
    let room' : ltb (length dst') (length src) ≡ false = ground arith in
    let loop =
      forward_loop_lem t (length dst) 0 zeros zeros (record { s2r = identity; r2s = identity }) src
        [] (omega arith) in
    let back =
      inverse_loop_lem t (length dst') 0 zeros zeros (record { s2r = identity; r2s = identity }) src
        [] identity-Inverses b (omega arith) in
    let written : take (length src) (overwrite (block_ranks t src) dst) ≡ block_ranks t src =
      ap (λ n. take n (overwrite (block_ranks t src) dst)) (sym l)
      ∙ take-length-append (block_ranks t src) (drop (length (block_ranks t src)) dst) in
    (
      block_ranks t src,
      rw (nonempty, has_dst, room, loop),
      l,
      ranks_of-IsBytes t 0 zeros zeros _ src identity-Inverses b,
      rw written (rw l (rw (nonempty, has_dst', room', back))),
    )
