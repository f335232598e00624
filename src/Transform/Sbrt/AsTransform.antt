-- ===== src/Transform/Sbrt/AsTransform.antt =====
-- SBRT keeps the promises of the interface, in every mode.
use kanzi_go.Base.{
  ℕ, ◌^◌, ◌≤◌, ◌<◌, ◌≡◌, refl, ap, sym, ◌∙◌, List, arith, length, ok, none, IsBytes, take,
}
use kanzi_go.Transform.Api.{Reply, overwrite, length-overwrite, take-overwrite}
use kanzi_go.Transform.Interface.{ByteTransform}
use kanzi_go.Transform.Sbrt.{Sbrt, forward, inverse, max_encoded_len}
use kanzi_go.Transform.Sbrt.RoundTrip.{slices, inverse-forward_ranks}

-- What a call that returned gave, and that it can be undone.
pub record Written (t : Sbrt) (src dst : List ℕ) (r : Reply) : Type 0 where
  pub ranks : List ℕ
  pub reply_eq :
      r
      ≡ record { read = length src; written = length src; error = none; dst = overwrite ranks dst }
  pub ranks_len : length ranks ≡ length src
  pub ranks_bytes : IsBytes ranks

pub forward-Written :
    (t : Sbrt) (src dst : List ℕ) (r : Reply)
    → IsBytes src
    → 0 < length src
    → max_encoded_len (length src) ≤ length dst
    → forward t (slices src dst) ≡ ok r
    → Written t src dst r
forward-Written t src dst r b p h e =
    let (ranks, e', l, rb, back) = inverse-forward_ranks t src dst dst b p h (omega arith) in
    record { ranks = ranks; reply_eq = cc (e, e'); ranks_len = l; ranks_bytes = rb }

take-ranks :
    (ranks src dst : List ℕ)
    → length ranks ≡ length src
    → take (length src) (overwrite ranks dst) ≡ ranks
take-ranks ranks src dst l =
    ap (λ n. take n (overwrite ranks dst)) (sym l) ∙ take-overwrite ranks dst

pub written-IsBytes :
    (t : Sbrt) (src dst : List ℕ) (r : Reply)
    → 0 < length src
    → Written t src dst r
    → (0 < r.written) × (r.written ≤ max_encoded_len (length src)) × IsBytes (take r.written r.dst)
written-IsBytes t src dst r p w =
    let e = w.reply_eq in
    rw e (p, omega arith, rw (take-ranks w.ranks src dst w.ranks_len) w.ranks_bytes)

pub restored :
    (t : Sbrt) (src dst : List ℕ) (r : Reply)
    → IsBytes src
    → 0 < length src
    → max_encoded_len (length src) ≤ length dst
    → forward t (slices src dst) ≡ ok r
    → (dst' : List ℕ) → length src ≤ length dst'
    → inverse t (slices (take r.written r.dst) dst')
      ≡ ok (record {
        read = length src;
        written = length src;
        error = none;
        dst = overwrite src dst';
      })
restored t src dst r b p h e dst' h' =
    let (ranks, e', l, rb, back) = inverse-forward_ranks t src dst dst' b p h h' in
    let same : r ≡ record {
      read = length src;
      written = length src;
      error = none;
      dst = overwrite ranks dst;
    } =
      cc (e, e') in
    rw same back

unfoldable pub sbrt : Sbrt → ByteTransform
sbrt t = record {
  forward = forward t;
  inverse = inverse t;
  max_encoded_len = max_encoded_len;
  limit = 2 ^ 62;
  max_encoded_len_mono = λ m n h. omega arith;
  forward_returns = λ src dst b p s h k.
      let (ranks, e, l, rb, back) = inverse-forward_ranks t src dst dst b p h (omega arith) in
      (
        record { read = length src; written = length src; error = none; dst = overwrite ranks dst },
        e,
        length-overwrite ranks dst (omega arith),
      );
  forward_writes = λ src dst r b p s h k e good.
      written-IsBytes t src dst r p (forward-Written t src dst r b p h e);
  inverse_restores = λ src dst r b p s h k e good dst' h' k'. record {
    reply = record {
      read = length src;
      written = length src;
      error = none;
      dst = overwrite src dst';
    };
    returns = restored t src dst r b p h e dst' h';
    no_error = refl;
    kept_len = length-overwrite src dst' h';
    fits = h';
    bytes_written = take-overwrite src dst';
    written_len = refl;
  };
}
