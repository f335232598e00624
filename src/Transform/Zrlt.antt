-- ===== src/Transform/Zrlt.antt =====
-- v2/transform/ZRLT.go. The loops walk the part of `src` not reached yet, beside the index of its
-- first byte; `out` is the part of `dst` that is written.
pub mod Format
pub mod Steps
pub mod Encode
pub mod Decode
pub mod RoundTrip
pub mod AsTransform
mod Tests
use kanzi_go.Base.{
  ℕ, zero, suc, ◌+◌, ◌-◌, ◌^◌, ◌<◌, Bool, true, false, not, ◌&&◌, ◌||◌, List, [], ◌∷◌, ◌++◌, Option,
  some, none, bit_and, bit_or, u8, u32, u64, sub64, shr, ltb, leb, ◌==◌, if◌then◌else◌, length,
  Exec, ok, panic, stuck, ◌>>=◌,
}
use kanzi_go.Internal.Log2.{log2_no_check}
use kanzi_go.Transform.Api.{
  Error, same_buffers, small_output, failed, Slices, Reply, put, overwrite,
}

abbrev pub max_encoded_len : ℕ → ℕ
max_encoded_len src_len = src_len

-- `for srcIdx+1 < srcEnd && src[srcIdx]|src[srcIdx+1] == 0 { srcIdx += 2 }`
pub skip_pairs : List ℕ → ℕ → ℕ × List ℕ
skip_pairs [] i = (i, [])
skip_pairs (a ∷ []) i = (i, a ∷ [])
skip_pairs (a ∷ b ∷ rest) i =
    let more = skip_pairs rest (i + 2) in if bit_or a b == 0 then more else (i, a ∷ b ∷ rest)

-- `for srcIdx < srcEnd && src[srcIdx] == 0 { srcIdx++ }`
pub skip_zeros : ℕ × List ℕ → ℕ × List ℕ
skip_zeros (i, []) = (i, [])
skip_zeros (i, a ∷ rest) =
    let more = skip_zeros (i + 1, rest) in if a == 0 then more else (i, a ∷ rest)

-- `for log2 > 0 { log2--; dst[dstIdx] = byte((runLength >> log2) & 1); dstIdx++ }`
write_bits : ℕ → ℕ → ℕ → List ℕ → Exec (List ℕ)
write_bits dst_len run_length zero out = ok out
write_bits dst_len run_length (suc log2) out =
    put dst_len out (u8 (bit_and (shr run_length log2) 1)) >>= write_bits dst_len run_length log2

-- The variables of `Forward` when its loop ends.
pub record Forward : Type 0 where
  pub src_idx : ℕ
  pub out : List ℕ
  pub res : Bool

unwrap : Option ℕ → Exec ℕ
unwrap none = panic
unwrap (some n) = ok n

-- One run of zeros: the code written, or `none` where the output is too small.
pub write_run : (dst_end dst_len run_length : ℕ) → List ℕ → Exec (Option (List ℕ))
unfolding unwrap
write_run dst_end dst_len run_length out = do
  log2 ← unwrap (log2_no_check (u32 run_length))
  let full = leb (sub64 dst_end log2) (length out)
  if full then ok none else (do out' ← write_bits dst_len run_length log2 out; ok (some out'))

-- One byte other than 0.
pub write_literal : (dst_end dst_len c : ℕ) → List ℕ → Exec (Option (List ℕ))
write_literal dst_end dst_len c out =
    if leb 0xFE c
    then if leb (sub64 dst_end 1) (length out)
      then ok none
      else (do out' ← put dst_len out 0xFF; out'' ← put dst_len out' (c - 0xFE); ok (some out''))
    else if leb dst_end (length out)
    then ok none
    else (do out' ← put dst_len out (u8 (c + 1)); ok (some out'))

-- After a write: go round again, or `res = false; break`.
pub after_write : (List ℕ → Exec Forward) → ℕ → List ℕ → Option (List ℕ) → Exec Forward
after_write loop i out none = ok (record { src_idx = i; out = out; res = false })
after_write loop i out (some out') = loop out'

-- The loop of `Forward`; `srcEnd` and `dstEnd` are both `len(src)`.
pub forward_loop : (fuel dst_end dst_len : ℕ) → ℕ → List ℕ → List ℕ → Exec Forward
unfolding after_write
forward_loop fuel dst_end dst_len i [] out = ok (record { src_idx = i; out = out; res = true })
forward_loop zero dst_end dst_len i (c ∷ rest) out = stuck
forward_loop (suc fuel) dst_end dst_len i (c ∷ rest) out = elim (c == 0) [
  | true ↦
      let (i', rest') = skip_zeros (skip_pairs rest (i + 1)) in
      write_run dst_end dst_len (sub64 i' (sub64 i 1)) out
      >>= after_write (forward_loop fuel dst_end dst_len i' rest') i' out
  | false ↦
      write_literal dst_end dst_len c out
      >>= after_write (forward_loop fuel dst_end dst_len (i + 1) rest) i out
]

empty_reply : List ℕ → Exec Reply
empty_reply dst = ok (record { read = 0; written = 0; error = none; dst = dst })

refuse : Error → List ℕ → Exec Reply
refuse e dst = ok (record { read = 0; written = 0; error = some e; dst = dst })

-- `&dst[0]` panics on an empty `dst`.
abbrev check_buffers : Slices → Exec Reply → Exec Reply
check_buffers b go =
    if length b.dst == 0 then panic else (if b.same then refuse same_buffers b.dst else go)

pub end_forward : ℕ → List ℕ → Forward → Reply
end_forward src_end dst s = record {
  read = s.src_idx;
  written = length s.out;
  error = if not (s.src_idx == src_end) || not s.res then some failed else none;
  dst = overwrite s.out dst;
}

pub forward : Slices → Exec Reply
unfolding empty_reply refuse
forward b =
    if length b.src == 0
    then empty_reply b.dst
    else check_buffers b (
        if ltb (length b.dst) (max_encoded_len (length b.src))
        then refuse small_output b.dst
        else (forward_loop (length b.src) (length b.src) (length b.dst) 0 b.src [] >>= λ s.
            ok (end_forward (length b.src) b.dst s)))

-- `for src[srcIdx] <= 1 { … }`: it stops at a byte above 1, or at the end of `src` (`goto End`).
pub read_run : ℕ → List ℕ → ℕ × List ℕ
read_run run_length [] = (run_length, [])
read_run run_length (c ∷ rest) =
    let more = read_run (u64 (run_length + u64 (run_length + c))) rest in
    if leb c 1 then more else (run_length, c ∷ rest)

-- `for runLength > 0 { runLength--; dst[dstIdx] = 0; dstIdx++ }`
pub write_zeros : ℕ → ℕ → List ℕ → Exec (List ℕ)
write_zeros dst_len zero out = ok out
write_zeros dst_len (suc run_length) out = put dst_len out 0 >>= write_zeros dst_len run_length

-- The variables of `Inverse` at the label `End`; `rest` is what `src` has left.
pub record Inverse : Type 0 where
  pub rest : List ℕ
  pub out : List ℕ
  pub run_length : ℕ

pub at_end : List ℕ → List ℕ → ℕ → Exec Inverse
at_end rest out run_length = ok (record { rest = rest; out = out; run_length = run_length })

-- The byte `c` after a run: written, with what is left of `src`; `none` where an escape is cut off.
pub write_data : ℕ → ℕ → List ℕ → List ℕ → Exec (Option (List ℕ × List ℕ))
write_data dst_len c rest out =
    if c == 0xFF
    then elim rest [
      | [] ↦ ok none
      | e ∷ rest' ↦ do out' ← put dst_len out (u8 (0xFE + e)); ok (some (rest', out'))
    ]
    else (do out' ← put dst_len out (u8 (c + 256 - 1)); ok (some (rest, out')))

-- The outcome of the run of zeros in front of a byte: go on at that byte, or jump to `End`.
pub data Run : Type 0 where
  go_on : (c : ℕ) (rest out : List ℕ) → Run
  jump : (rest out : List ℕ) (run_length : ℕ) → Run

pub generate_run : ℕ → List ℕ → ℕ × List ℕ → Exec Run
generate_run dst_len out (run_length, []) = ok (jump [] out run_length)
generate_run dst_len out (run_length, d ∷ rest) =
    let n = sub64 run_length 1 in
    if n == 0
    then ok (go_on d rest out)
    else if leb (dst_len - length out) n
    then ok (jump (d ∷ rest) out n)
    else (do out' ← write_zeros dst_len n out; ok (go_on d rest out'))

pub inverse_run : ℕ → ℕ → List ℕ → List ℕ → Exec Run
unfolding generate_run
inverse_run dst_len c rest out =
    if leb c 1 then generate_run dst_len out (read_run 1 (c ∷ rest)) else ok (go_on c rest out)

-- `if srcIdx >= srcEnd || dstIdx >= dstEnd { break }`
pub bottom_test :
    ℕ → (List ℕ → List ℕ → Exec Inverse) → Option (List ℕ × List ℕ) → List ℕ → Exec Inverse
bottom_test dst_len loop none out = at_end [] out 0
bottom_test dst_len loop (some (rest, out')) out =
    elim (length rest == 0 || leb dst_len (length out')) [
      | true ↦ at_end rest out' 0
      | false ↦ loop rest out'
    ]

-- The rest of the loop's body after a run; `loop` goes round again.
pub inverse_data : ℕ → (List ℕ → List ℕ → Exec Inverse) → Run → Exec Inverse
unfolding bottom_test at_end
inverse_data dst_len loop (jump rest out n) = at_end rest out n
inverse_data dst_len loop (go_on c rest out) =
    write_data dst_len c rest out >>= λ w. bottom_test dst_len loop w out

-- The loop of `Inverse`; `src[srcIdx]` panics past the end.
pub inverse_loop : ℕ → ℕ → List ℕ → List ℕ → Exec Inverse
inverse_loop fuel dst_len [] out = panic
inverse_loop zero dst_len (c ∷ rest) out = stuck
inverse_loop (suc fuel) dst_len (c ∷ rest) out =
    inverse_run dst_len c rest out >>= inverse_data dst_len (inverse_loop fuel dst_len)

pub reply_inverse : ℕ → List ℕ → List ℕ → Bool → List ℕ → Exec Reply
reply_inverse src_len dst rest bad out = ok (record {
  read = src_len - length rest;
  written = length out;
  error = if bad then some failed else none;
  dst = overwrite out dst;
})

-- The code at `End`: the zeros still owed, then the error.
pub end_inverse : ℕ → List ℕ → Inverse → Exec Reply
unfolding reply_inverse
end_inverse src_len dst s =
    let n = sub64 s.run_length 1 in
    let left = not (length s.rest == 0) in
    if s.run_length == 0
    then reply_inverse src_len dst s.rest left s.out
    else if ltb (length dst - length s.out) n
    then reply_inverse src_len dst s.rest true s.out
    else (write_zeros (length dst) n s.out >>= reply_inverse src_len dst s.rest left)

pub inverse : Slices → Exec Reply
unfolding empty_reply refuse
inverse b =
    if length b.src == 0
    then empty_reply b.dst
    else check_buffers b
        (inverse_loop (length b.src) (length b.dst) b.src [] >>= end_inverse (length b.src) b.dst)
