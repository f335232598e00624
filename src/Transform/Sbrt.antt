-- ===== src/Transform/Sbrt.antt =====
-- v2/transform/SBRT.go. The arrays of 256 entries are functions of their index, which the code keeps in a
-- uint8; a Go int is a native number, with -1 as the mask of 64 ones.
pub mod Bijection
pub mod RoundTrip
pub mod AsTransform
mod Tests
use kanzi_go.Base.{
  ℕ, zero, suc, ◌+◌, ◌-◌, ◌^◌, ◌||◌, Bool, true, false, List, [], ◌∷◌, Option, none, some, bit_and,
  shr, ltb, leb, ◌==◌, if◌then◌else◌, length, Exec, ok, panic, ◌>>=◌,
}
use kanzi_go.Base.Arrays.{update}
use kanzi_go.Transform.Api.{
  Error, same_buffers, small_output, failed, Slices, Reply, put, overwrite,
}

pub record Sbrt : Type 0 where
  pub mode : ℕ
  pub mask1 : ℕ
  pub mask2 : ℕ
  pub shift : ℕ

abbrev pub sbrt_mode_mtf : ℕ
sbrt_mode_mtf = 1

abbrev pub sbrt_mode_rank : ℕ
sbrt_mode_rank = 2

abbrev pub sbrt_mode_timestamp : ℕ
sbrt_mode_timestamp = 3

abbrev minus_one : ℕ
minus_one = 2 ^ 64 - 1

unfoldable pub new_sbrt : ℕ → Option Sbrt
new_sbrt mode =
    if mode == sbrt_mode_mtf || mode == sbrt_mode_rank || mode == sbrt_mode_timestamp
    then some (record {
      mode = mode;
      mask1 = if mode == sbrt_mode_timestamp then 0 else minus_one;
      mask2 = if mode == sbrt_mode_mtf then 0 else minus_one;
      shift = if mode == sbrt_mode_rank then 1 else 0;
    })
    else none

-- The argument is the entry "sbrt" of the context.
unfoldable pub new_sbrt_with_ctx : Option ℕ → Option Sbrt
new_sbrt_with_ctx none = new_sbrt sbrt_mode_mtf
new_sbrt_with_ctx (some mode) = new_sbrt mode

-- `_BWT_MAX_HEADER_SIZE` is 8 * 4.
abbrev pub max_encoded_len : ℕ → ℕ
max_encoded_len src_len = src_len + 32

-- `((i & m1) + (p[c] & m2)) >> s`
abbrev pub new_time : Sbrt → ℕ → ℕ → ℕ
new_time t i last = shr (bit_and i t.mask1 + bit_and last t.mask2) t.shift

-- The ranks of symbols and the symbols of ranks.
pub record Ranks : Type 0 where
  pub s2r : ℕ → ℕ
  pub r2s : ℕ → ℕ

-- The inner loop of `Forward`, with the rank it ends at.
pub move_up : (q : ℕ → ℕ) (qc r : ℕ) → Ranks → ℕ × Ranks
move_up q qc zero a = (0, a)
move_up q qc (suc r) a = elim (leb (q (a.r2s r)) qc) [
  | true ↦
      move_up q qc r
        (record { s2r = update a.s2r (a.r2s r) (suc r); r2s = update a.r2s (suc r) (a.r2s r) })
  | false ↦ (suc r, a)
]

-- `r2s[r] = c; s2r[c] = r`
pub settle : ℕ → ℕ × Ranks → Ranks
settle c (r, a) = record { s2r = update a.s2r c r; r2s = update a.r2s r c }

-- The loop of `Forward` at index `i`, on what `src` has left.
pub forward_loop :
    Sbrt → (dst_len i : ℕ) → (p q : ℕ → ℕ) → Ranks → (src out : List ℕ) → Exec (List ℕ)
forward_loop t dst_len i p q a [] out = ok out
forward_loop t dst_len i p q a (c ∷ src) out = do
  let r = a.s2r c
  out' ← put dst_len out r
  let qc = new_time t i (p c)
  let q' = update q c qc
  forward_loop t dst_len (i + 1) (update p c i) q' (settle c (move_up q' qc r a)) src out'

-- The inner loop of `Inverse` and `r2s[r] = c` behind it.
pub move_symbol : (q : ℕ → ℕ) (qc c r : ℕ) → (ℕ → ℕ) → ℕ → ℕ
move_symbol q qc c zero r2s = update r2s 0 c
move_symbol q qc c (suc r) r2s = elim (leb (q (r2s r)) qc) [
  | true ↦ move_symbol q qc c r (update r2s (suc r) (r2s r))
  | false ↦ update r2s (suc r) c
]

pub inverse_loop : Sbrt → (dst_len i : ℕ) → (p q r2s : ℕ → ℕ) → (src out : List ℕ) → Exec (List ℕ)
inverse_loop t dst_len i p q r2s [] out = ok out
inverse_loop t dst_len i p q r2s (r ∷ src) out = do
  let c = r2s r
  out' ← put dst_len out c
  let qc = new_time t i (p c)
  let q' = update q c qc
  inverse_loop t dst_len (i + 1) (update p c i) q' (move_symbol q' qc c r r2s) src out'

refuse : Error → List ℕ → Exec Reply
refuse e dst = ok (record { read = 0; written = 0; error = some e; dst = dst })

pub success : ℕ → List ℕ → List ℕ → Exec Reply
success count dst out =
    ok (record { read = count; written = count; error = none; dst = overwrite out dst })

-- What both methods check first; `&dst[0]` panics on an empty `dst`.
check_buffers : Slices → ℕ → Exec Reply → Exec Reply
unfolding refuse
check_buffers b required go =
    if length b.src == 0
    then ok (record { read = 0; written = 0; error = none; dst = b.dst })
    else if length b.dst == 0
    then panic
    else if b.same
    then refuse same_buffers b.dst
    else if ltb (length b.dst) required
    then refuse small_output b.dst
    else go

abbrev pub zeros : ℕ → ℕ
zeros i = 0

abbrev pub identity : ℕ → ℕ
identity i = i

unfoldable pub forward : Sbrt → Slices → Exec Reply
unfolding check_buffers success
forward t b = check_buffers b (max_encoded_len (length b.src)) (
    forward_loop t (length b.dst) 0 zeros zeros (record { s2r = identity; r2s = identity }) b.src []
    >>= success (length b.src) b.dst)

unfoldable pub inverse : Sbrt → Slices → Exec Reply
unfolding check_buffers success
inverse t b =
    check_buffers b (length b.src) (
      inverse_loop t (length b.dst) 0 zeros zeros identity b.src []
      >>= success (length b.src) b.dst)
