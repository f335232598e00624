-- ===== src/Transform/NullTransform.antt =====
-- v2/transform/NullTransform.go: the transform that copies.
mod Tests
use kanzi_go.Base.{
  ℕ, zero, suc, ◌+◌, ◌-◌, ◌^◌, ◌≤◌, ◌<◌, ◌≡◌, refl, ap, sym, ◌∙◌, List, [], ◌∷◌, ◌++◌, arith,
  length, ltb, ◌==◌, if◌then◌else◌, false, length-append, length-drop, Exec, ok, panic, none, some,
  IsBytes, take, drop, take-length-append,
}
use kanzi_go.Transform.Api.{
  Slices, Reply, overwrite, small_output, length-overwrite, take-overwrite,
}
use kanzi_go.Transform.Interface.{ByteTransform, Wrote, slices}

abbrev pub max_encoded_len : ℕ → ℕ
max_encoded_len src_len = src_len

-- Equal buffers are not copied.
abbrev do_copy : Slices → Exec Reply
do_copy b =
    if length b.src == 0
    then ok (record { read = 0; written = 0; error = none; dst = b.dst })
    else if ltb (length b.dst) (length b.src)
    then ok (record { read = 0; written = 0; error = some small_output; dst = b.dst })
    else ok (record {
      read = length b.src;
      written = length b.src;
      error = none;
      dst = if b.same then b.dst else overwrite b.src b.dst;
    })

unfoldable pub forward : Slices → Exec Reply
forward b =
    if ltb (length b.dst) (max_encoded_len (length b.src))
    then ok (record { read = 0; written = 0; error = some small_output; dst = b.dst })
    else do_copy b

unfoldable pub inverse : Slices → Exec Reply
inverse b = do_copy b

-- What both methods do on a nonempty block with room for it.
pub copied : List ℕ → List ℕ → Reply
copied src dst = record {
  read = length src;
  written = length src;
  error = none;
  dst = overwrite src dst;
}

pub forward_lem :
    (src dst : List ℕ)
    → 0 < length src
    → length src ≤ length dst
    → forward (slices src dst) ≡ ok (copied src dst)
unfolding forward copied
forward_lem src dst p h =
    let a : (length src == 0) ≡ false = ground arith in
    let b : ltb (length dst) (length src) ≡ false = ground arith in rw b (rw a refl)

inverse_lem :
    (src dst : List ℕ)
    → 0 < length src
    → length src ≤ length dst
    → inverse (slices src dst) ≡ ok (copied src dst)
unfolding inverse copied
inverse_lem src dst p h =
    let a : (length src == 0) ≡ false = ground arith in
    let b : ltb (length dst) (length src) ≡ false = ground arith in rw a (rw b refl)

take-copied : (src dst : List ℕ) → take (length src) (overwrite src dst) ≡ src
take-copied src dst = take-overwrite src dst

pub writes :
    (src dst : List ℕ) (r : Reply)
    → IsBytes src
    → 0 < length src
    → length src ≤ length dst
    → forward (slices src dst) ≡ ok r
    → (0 < r.written) × (r.written ≤ length src) × IsBytes (take r.written r.dst)
unfolding copied
writes src dst r b p h e =
    let same : r ≡ copied src dst = cc (e, forward_lem src dst p h) in
    rw same (p, omega arith, rw (take-copied src dst) b)

pub restores :
    (src dst : List ℕ) (r : Reply)
    → 0 < length src
    → length src ≤ length dst
    → forward (slices src dst) ≡ ok r
    → (dst' : List ℕ) → length src ≤ length dst'
    → Wrote (inverse (slices (take r.written r.dst) dst')) (length dst') src
unfolding copied
restores src dst r p h e dst' h' =
    let same : r ≡ copied src dst = cc (e, forward_lem src dst p h) in
    rw same (
      rw (take-copied src dst) (record {
        reply = copied src dst';
        returns = inverse_lem src dst' p h';
        no_error = refl;
        kept_len = length-overwrite src dst' h';
        fits = h';
        bytes_written = take-copied src dst';
        written_len = refl;
      }))

-- It keeps the promises of the interface, on slices of any length that an int can be.
unfoldable pub null_transform : ByteTransform
unfolding copied
null_transform = record {
  forward = forward;
  inverse = inverse;
  max_encoded_len = max_encoded_len;
  limit = 2 ^ 63;
  max_encoded_len_mono = λ m n h. h;
  forward_returns =
      λ src dst b p s h k. (copied src dst, forward_lem src dst p h, length-overwrite src dst h);
  forward_writes = λ src dst r b p s h k e good. writes src dst r b p h e;
  inverse_restores = λ src dst r b p s h k e good dst' h' k'. restores src dst r p h e dst' h';
}
