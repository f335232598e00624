-- ===== src/Transform/Interface.antt =====
-- `kanzi.ByteTransform` of v2/Definitions.go as an interface: its methods, and what each implementation
-- promises to the code that composes them.
use kanzi_go.Base.{ℕ, ◌<◌, ◌≤◌, ◌≡◌, List, Exec, ok, none, length, take, IsBytes, false}
use kanzi_go.Transform.Api.{Slices, Reply}

abbrev pub slices : List ℕ → List ℕ → Slices
slices src dst = record { src = src; dst = dst; same = false }

-- A call that returned with no error and with `bytes` as what it wrote into a `dst` of `dst_len` bytes.
pub record Wrote (call : Exec Reply) (dst_len : ℕ) (bytes : List ℕ) : Type 0 where
  pub reply : Reply
  pub returns : call ≡ ok reply
  pub no_error : reply.error ≡ none
  pub kept_len : length reply.dst ≡ dst_len
  pub fits : reply.written ≤ dst_len
  pub bytes_written : take reply.written reply.dst ≡ bytes
  pub written_len : reply.written ≡ length bytes

-- The laws hold of blocks and slices of fewer than `limit` bytes.
pub record ByteTransform : Type 0 where
  pub forward : Slices → Exec Reply
  pub inverse : Slices → Exec Reply
  pub max_encoded_len : ℕ → ℕ
  pub limit : ℕ
  pub max_encoded_len_mono : (m n : ℕ) → m ≤ n → max_encoded_len m ≤ max_encoded_len n
  -- With room for the encoded block `Forward` returns, whether with an error or not.
  pub forward_returns :
      (src dst : List ℕ)
      → IsBytes src
      → 0 < length src
      → length src < limit
      → max_encoded_len (length src) ≤ length dst
      → length dst < limit
      → (r : Reply) × (forward (slices src dst) ≡ ok r) × (length r.dst ≡ length dst)
  -- With no error, it wrote between one byte and `MaxEncodedLen`,
  pub forward_writes :
      (src dst : List ℕ) (r : Reply)
      → IsBytes src
      → 0 < length src
      → length src < limit
      → max_encoded_len (length src) ≤ length dst
      → length dst < limit
      → forward (slices src dst) ≡ ok r
      → r.error ≡ none
      → (0 < r.written)
        × (r.written ≤ max_encoded_len (length src))
        × IsBytes (take r.written r.dst)
  -- from which `Inverse` writes the block again, into any slice with room for it.
  pub inverse_restores :
      (src dst : List ℕ) (r : Reply)
      → IsBytes src
      → 0 < length src
      → length src < limit
      → max_encoded_len (length src) ≤ length dst
      → length dst < limit
      → forward (slices src dst) ≡ ok r
      → r.error ≡ none
      → (dst' : List ℕ) → length src ≤ length dst'
      → length dst' < limit
      → Wrote (inverse (slices (take r.written r.dst) dst')) (length dst') src
