-- ===== src/Transform/Zrlt/RoundTrip.antt =====
-- The calls of `Forward` and `Inverse` as a whole.
use kanzi_go.Base.{
  ℕ, ◌+◌, ◌^◌, ◌≤◌, ◌<◌, ◌≡◌, ◌≢◌, refl, ap, ◌∙◌, List, [], ◌∷◌, ◌==◌, arith, length, Exec, ok,
  none, IsBytes, true, false, ◌>>=◌, ltb, take,
}
use native.Mathlib.Nat.{sub-zero}
use kanzi_go.Transform.Api.{Slices, Reply, overwrite, length-overwrite, take-overwrite}
use kanzi_go.Transform.Zrlt.{Forward, forward, forward_loop, end_forward, inverse, reply_inverse}
use kanzi_go.Transform.Zrlt.Format.{Token, expand, code, IsFormed}
use kanzi_go.Transform.Zrlt.Encode.{Encoded, forward_loop-Encoded}
use kanzi_go.Transform.Zrlt.Decode.{decode, code-pos, expand-pos}

abbrev pub slices : List ℕ → List ℕ → Slices
slices src dst = record { src = src; dst = dst; same = false }

-- `Forward` on nonempty input with room in `dst` is its loop and the check behind it.
forward-eq :
    (src dst : List ℕ)
    → 0 < length src
    → length src ≤ length dst
    → forward (slices src dst) ≡ (
        forward_loop (length src) (length src) (length dst) 0 src [] >>= λ s.
        ok (end_forward (length src) dst s))
unfolding forward
forward-eq src dst p h =
    let a : (length src == 0) ≡ false = ground arith in
    let b : (length dst == 0) ≡ false = ground arith in
    let c : ltb (length dst) (length src) ≡ false = ground arith in rw (a, b, c)

-- The call returns: no panic, and the loop ends.
pub record Returned (src dst : List ℕ) : Type 0 where
  pub state : Forward
  pub runs : forward (slices src dst) ≡ ok (end_forward (length src) dst state)
  pub encoded : Encoded (length src) 0 src [] state

pub forward-Returned :
    (src dst : List ℕ)
    → IsBytes src
    → 0 < length src
    → length src ≤ length dst
    → length src + 1 < 2 ^ 32
    → Returned src dst
forward-Returned src dst b p h s =
    let (r, e, enc) =
      forward_loop-Encoded (length src) (length src) (length dst) 0 src [] (omega arith)
        (omega arith) s h b (omega arith) in
    record { state = r; runs = rw (forward-eq src dst p h, e); encoded = enc }

-- On a nonempty block of fewer than 2^32 - 1 bytes, with room for them in `dst`, `Forward`
-- returns: it does not panic, reads and writes at most `len(src)` bytes, keeps the length of
-- `dst`, and reports no error only if it read all of `src`.
pub forward_returns :
    (src dst : List ℕ)
    → IsBytes src
    → 0 < length src
    → length src ≤ length dst
    → length src + 1 < 2 ^ 32
    → (r : Reply) × (forward (slices src dst) ≡ ok r)
      × (r.read ≤ length src)
      × (r.written ≤ length src)
      × (length r.dst ≡ length dst)
      × (r.error ≡ none → r.read ≡ length src)
unfolding end_forward
forward_returns src dst b p h s =
    let f = forward-Returned src dst b p h s in
    (
      end_forward (length src) dst f.state,
      f.runs,
      omega (arith, f.encoded.read),
      f.encoded.fits,
      length-overwrite f.state.out dst (omega (arith, f.encoded.fits)),
      λ e. ground arith,
    )

-- `Inverse` reads the code of any nonempty well-formed sequence of tokens, whether `Forward` chose
-- it or not, to the bytes that it stands for, if `dst` has room for them and fewer than 2^32
-- bytes: it returns with no error, having read all.
pub inverse-code :
    (ts : List Token) (dst : List ℕ)
    → IsFormed ts
    → ts ≢ []
    → length (expand ts) ≤ length dst
    → length dst < 2 ^ 32
    → inverse (slices (code ts) dst)
      ≡ ok (record {
        read = length (code ts);
        written = length (expand ts);
        error = none;
        dst = overwrite (expand ts) dst;
      })
unfolding inverse reply_inverse
inverse-code [] dst f ne h s = absurd (ne refl)
inverse-code (t ∷ ts) dst f ne h s =
    let a : (length (code (t ∷ ts)) == 0) ≡ false = ground (arith, code-pos t ts f) in
    let b : (length dst == 0) ≡ false = ground (arith, expand-pos t ts f) in
    rw (a, b)
      (decode (length (code (t ∷ ts))) dst s (length (code (t ∷ ts))) (t ∷ ts) [] f ne (omega arith)
          (omega arith)
        ∙ ap (success (length (expand (t ∷ ts)))) (sub-zero (length (code (t ∷ ts)))))
  where
    success : ℕ → ℕ → Exec Reply
    success written read = ok (record {
      read = read;
      written = written;
      error = none;
      dst = overwrite (expand (t ∷ ts)) dst;
    })

-- What is read back from a state that ended without an error.
restores :
    (src dst dst' : List ℕ) (s : Forward)
    → Encoded (length src) 0 src [] s
    → 0 < length src
    → length src ≤ length dst'
    → length dst' < 2 ^ 32
    → (end_forward (length src) dst s).error ≡ none
    → inverse (
        slices
          (take (end_forward (length src) dst s).written (end_forward (length src) dst s).dst)
          dst')
      ≡ ok (record {
        read = (end_forward (length src) dst s).written;
        written = length src;
        error = none;
        dst = overwrite src dst';
      })
unfolding end_forward
restores src dst dst' s enc p h' small e =
    let success : s.res ≡ true = ground arith in
    let t = (enc.whole success).1 in
    rw (take-overwrite s.out dst, t.written)
      (rw (← t.stands_for) (
        inverse-code t.tokens dst' t.formed
          (λ q. absurd (
            omega (arith, p, ap length t.stands_for, ap (λ (z : List Token). length (expand z)) q)))
          (omega (arith, ap length t.stands_for)) small))

-- For a nonempty block of fewer than 2^32 - 1 bytes, a slice `dst` at least as long and a
-- slice `dst'` of fewer than 2^32 bytes with room for it: what `Forward` wrote into `dst` without
-- an error is read back by `Inverse` into `dst'`: the bytes are restored exactly, the rest of
-- `dst'` is left alone, and there is no error.
pub inverse-forward :
    (src dst dst' : List ℕ) (r : Reply)
    → IsBytes src
    → 0 < length src
    → length src ≤ length dst
    → length src + 1 < 2 ^ 32
    → length src ≤ length dst'
    → length dst' < 2 ^ 32
    → forward (slices src dst) ≡ ok r
    → r.error ≡ none
    → inverse (slices (take r.written r.dst) dst')
      ≡ ok (record {
        read = r.written;
        written = length src;
        error = none;
        dst = overwrite src dst';
      })
inverse-forward src dst dst' r b p h s h' s' e ok_r =
    let f = forward-Returned src dst b p h s in
    let same : r ≡ end_forward (length src) dst f.state = cc f.runs in
    rw same (restores src dst dst' f.state f.encoded p h' s' (rw same at ok_r))
