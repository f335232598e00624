-- ===== src/Transform/Api.antt =====
-- `kanzi.ByteTransform` of v2/Definitions.go: what a transform is given and what it returns.
use kanzi_go.Base.{ℕ, Bool, List, Option, Exec, ok, panic, ◌++◌, ltb, length, drop, [], ◌∷◌}
use kanzi_go.Base.{
  if◌then◌else◌, ◌≡◌, ◌≤◌, arith, length-append, length-drop, take, take-length-append,
}

pub data Error : Type 0 where
  same_buffers small_output failed : Error

-- The slices `src` and `dst`, and whether `&src[0] == &dst[0]`.
pub record Slices : Type 0 where
  pub src : List ℕ
  pub dst : List ℕ
  pub same : Bool

-- `(uint, uint, error)`, with what `dst` holds after the call.
pub record Reply : Type 0 where
  pub read : ℕ
  pub written : ℕ
  pub error : Option Error
  pub dst : List ℕ

-- `dst[dstIdx] = b; dstIdx++`, where `out` is what was written so far and `dst_len` is `len(dst)`.
abbrev pub put : ℕ → List ℕ → ℕ → Exec (List ℕ)
put dst_len out b = if ltb (length out) dst_len then ok (out ++ (b ∷ [])) else panic

-- `dst` after a call that wrote `out` from its start on.
abbrev pub overwrite : List ℕ → List ℕ → List ℕ
overwrite out dst = out ++ drop (length out) dst

pub length-overwrite :
    (out dst : List ℕ) → length out ≤ length dst → length (overwrite out dst) ≡ length dst
length-overwrite out dst h =
    omega (arith, length-append out (drop (length out) dst), length-drop (length out) dst)

pub take-overwrite : (out dst : List ℕ) → take (length out) (overwrite out dst) ≡ out
take-overwrite out dst = take-length-append out (drop (length out) dst)
