-- ===== src/Transform/Zrlt/AsTransform.antt =====
-- ZRLT keeps the promises of the interface.
use kanzi_go.Base.{
  ℕ, zero, suc, ◌+◌, ◌-◌, ◌^◌, ◌≤◌, ◌<◌, ◌≡◌, refl, ap, List, [], ◌∷◌, ◌++◌, arith, length, leb, ok,
  none, IsBytes, true, Bool-cases, inl, inr, take,
}
use kanzi_go.Base.Digits.{bits}
use kanzi_go.Transform.Api.{Reply, overwrite, length-overwrite, take-overwrite}
use kanzi_go.Transform.Interface.{ByteTransform}
use kanzi_go.Transform.Zrlt.{forward, inverse, end_forward, max_encoded_len}
use kanzi_go.Transform.Zrlt.Format.{Token, lit, run, literal, expand, code, IsFormed}
use kanzi_go.Transform.Zrlt.Decode.{code-pos}
use kanzi_go.Transform.Zrlt.RoundTrip.{slices, forward-Returned, forward_returns, inverse-forward}

pub append-IsBytes : (xs ys : List ℕ) → IsBytes xs → IsBytes ys → IsBytes (xs ++ ys)
append-IsBytes [] ys h k = k
append-IsBytes (x ∷ xs) ys h k = (h.0, append-IsBytes xs ys h.1 k)

bits-IsBytes : (k v : ℕ) → IsBytes (bits k v)
unfolding bits
bits-IsBytes zero v = tt
bits-IsBytes (suc k) v = (omega arith, bits-IsBytes k v)

literal-IsBytes : (c : ℕ) → c < 256 → IsBytes (literal c)
literal-IsBytes c h = elim (Bool-cases (leb 0xFE c)) [
  | inl e ↦ rw e (omega arith, (omega arith, tt))
  | inr e ↦ rw e (ground arith, tt)
]

code-IsBytes : (ts : List Token) → IsFormed ts → IsBytes (code ts)
code-IsBytes [] f = tt
code-IsBytes (lit c ∷ ts) f =
    append-IsBytes (literal c) (code ts) (literal-IsBytes c f.1) (code-IsBytes ts f.2)
code-IsBytes (run n k ∷ ts) f =
    append-IsBytes (bits k (n + 1)) (code ts) (bits-IsBytes k (n + 1)) (code-IsBytes ts f.4)

pub written-IsBytes :
    (src dst : List ℕ) (r : Reply)
    → IsBytes src
    → 0 < length src
    → length src ≤ length dst
    → length src + 1 < 2 ^ 32
    → forward (slices src dst) ≡ ok r
    → r.error ≡ none
    → IsBytes (take r.written r.dst)
unfolding end_forward
written-IsBytes src dst r b p h s e good =
    let f = forward-Returned src dst b p h s in
    let same : r ≡ end_forward (length src) dst f.state = cc f.runs in
    let good' = rw same at good in
    let success : f.state.res ≡ true = ground arith in
    let t = (f.encoded.whole success).1 in
    rw same (rw (take-overwrite f.state.out dst, t.written) (code-IsBytes t.tokens t.formed))

code-nonempty :
    (ts : List Token) (src : List ℕ)
    → IsFormed ts
    → expand ts ≡ src
    → 0 < length src
    → 0 < length (code ts)
code-nonempty [] src f e p = absurd (omega (arith, p, ap length e))
code-nonempty (t ∷ ts) src f e p = code-pos t ts f

pub written-pos :
    (src dst : List ℕ) (r : Reply)
    → IsBytes src
    → 0 < length src
    → length src ≤ length dst
    → length src + 1 < 2 ^ 32
    → forward (slices src dst) ≡ ok r
    → r.error ≡ none
    → 0 < r.written
unfolding end_forward
written-pos src dst r b p h s e good =
    let f = forward-Returned src dst b p h s in
    let same : r ≡ end_forward (length src) dst f.state = cc f.runs in
    let good' = rw same at good in
    let success : f.state.res ≡ true = ground arith in
    let t = (f.encoded.whole success).1 in
    let pos = code-nonempty t.tokens src t.formed t.stands_for p in rw same (rw t.written pos)

unfoldable pub zrlt : ByteTransform
unfolding forward inverse
zrlt = record {
  forward = forward;
  inverse = inverse;
  max_encoded_len = max_encoded_len;
  limit = 2 ^ 32 - 1;
  max_encoded_len_mono = λ m n h. h;
  forward_returns = λ src dst b p s h k.
      let (r, e, re, wr, kept, all) = forward_returns src dst b p h (omega arith) in (r, e, kept);
  forward_writes = λ src dst r b p s h k e good.
      let (r', e', re, wr, kept, all) = forward_returns src dst b p h (omega arith) in
      let same : r' ≡ r = cc (e, e') in
      (
        written-pos src dst r b p h (omega arith) e good,
        rw same at wr,
        written-IsBytes src dst r b p h (omega arith) e good,
      );
  inverse_restores = λ src dst r b p s h k e good dst' h' k'. record {
    reply = record {
      read = r.written;
      written = length src;
      error = none;
      dst = overwrite src dst';
    };
    returns = inverse-forward src dst dst' r b p h (omega arith) h' (omega arith) e good;
    no_error = refl;
    kept_len = length-overwrite src dst' h';
    fits = h';
    bytes_written = take-overwrite src dst';
    written_len = refl;
  };
}
