-- ===== src/Transform/Sequence.antt =====
-- v2/transform/Sequence.go. The slices `in` and `out` keep their hidden part, from their length to their
-- capacity. `dst` is `out` before an even number of swaps and `in` before an odd one: it is the longer of
-- the two and never reallocated.
pub mod Flags
pub mod Stages
pub mod Induction
pub mod RoundTrip
mod Tests
use kanzi_go.Base.{
  ℕ, zero, suc, ◌+◌, ◌-◌, ◌^◌, ◌%◌, ◌||◌, not, Bool, true, false, List, [], ◌∷◌, ◌++◌, Option, none,
  some, bit_and, shl, ltb, leb, ◌==◌, if◌then◌else◌, length, take, drop, replicate, Exec, ok, panic,
  ◌>>=◌,
}
use kanzi_go.Transform.Api.{Error, same_buffers, small_output, failed, Slices, Reply, overwrite}
use kanzi_go.Transform.Interface.{ByteTransform, slices}

abbrev pub transform_skip_mask : ℕ
transform_skip_mask = 0xFF

pub record Sequence : Type 0 where
  pub transforms : List ByteTransform
  pub skip_flags : ℕ

-- `nil` and more than eight transforms are refused.
unfoldable pub new_sequence : Option (List ByteTransform) → Option Sequence
new_sequence none = none
new_sequence (some ts) =
    if length ts == 0 || ltb 8 (length ts)
    then none
    else some (record { transforms = ts; skip_flags = 0 })

pub record Buffer : Type 0 where
  pub bytes : List ℕ
  pub hidden : List ℕ

-- `MaxEncodedLen`
unfoldable pub max_encoded_len : List ByteTransform → ℕ → ℕ
max_encoded_len [] required_size = required_size
max_encoded_len (t ∷ ts) required_size =
    let req_size = t.max_encoded_len required_size in
    max_encoded_len ts (if ltb required_size req_size then req_size else required_size)

-- `out` with at least `size` bytes: as it is, extended into its capacity, or made anew.
unfoldable pub grow : ℕ → Buffer → Buffer
grow size out =
    if leb size (length out.bytes)
    then out
    else if leb size (length out.bytes + length out.hidden)
    then record {
      bytes = take size (out.bytes ++ out.hidden);
      hidden = drop size (out.bytes ++ out.hidden);
    }
    else record { bytes = replicate size 0; hidden = [] }

-- `in[0:length]` panics past the capacity.
unfoldable pub slice_of : ℕ → Buffer → Exec (List ℕ)
slice_of len b =
    if leb len (length b.bytes + length b.hidden)
    then ok (take len (b.bytes ++ b.hidden))
    else panic

-- The variables of both methods; `flags` is `this.skipFlags`.
pub record Progress : Type 0 where
  pub flags : ℕ
  pub len : ℕ
  pub in_ : Buffer
  pub out : Buffer
  pub swaps : ℕ
  pub err : Option Error

-- `flags & ^(1 << (7 - i))`, and whether the bit is set.
unfoldable pub clear_flag : ℕ → ℕ → ℕ
clear_flag flags i = bit_and flags (0xFF - shl 1 (7 - i))

unfoldable pub skipped : ℕ → ℕ → Bool
skipped flags i = not (bit_and flags (shl 1 (7 - i)) == 0)

-- The state behind a call: on an error the old length is kept, else the buffers are swapped.
unfoldable pub after_forward : ℕ → Progress → Buffer → Reply → Progress
after_forward i s out r = elim r.error [
  | some e ↦ record {
    flags = s.flags;
    len = s.len;
    in_ = s.in_;
    out = record { bytes = r.dst; hidden = out.hidden };
    swaps = s.swaps;
    err = none;
  }
  | none ↦ record {
    flags = clear_flag s.flags i;
    len = r.written;
    in_ = record { bytes = r.dst; hidden = out.hidden };
    out = s.in_;
    swaps = s.swaps + 1;
    err = none;
  }
]

-- The loop of `Forward` from the transform of index `i` on.
unfoldable pub forward_loop : (required_size i : ℕ) → List ByteTransform → Progress → Exec Progress
forward_loop required_size i [] s = ok s
forward_loop required_size i (t ∷ ts) s = do
  src ← slice_of s.len s.in_
  let out = grow required_size s.out
  r ← t.forward (slices src out.bytes)
  forward_loop required_size (i + 1) ts (after_forward i s out r)

-- What `Forward` returns, with the state of the sequence after it.
pub record SequenceReply : Type 0 where
  pub flags : ℕ
  pub reply : Reply

abbrev pub odd : ℕ → Bool
odd n = not (n % 2 == 0)

unfoldable pub end_forward : (block_size : ℕ) → Progress → Exec SequenceReply
end_forward block_size s =
    if odd s.swaps
    then ok (record {
      flags = s.flags;
      reply = record { read = block_size; written = s.len; error = none; dst = s.in_.bytes };
    })
    else if ltb (length s.out.bytes) s.len
    then ok (record {
      flags = transform_skip_mask;
      reply = record { read = block_size; written = s.len; error = none; dst = s.out.bytes };
    })
    else (do
      stored ← slice_of s.len s.in_
      ok (record {
        flags = s.flags;
        reply = record {
          read = block_size;
          written = s.len;
          error = none;
          dst = overwrite stored s.out.bytes;
        };
      }))

refuse : ℕ → Option Error → List ℕ → Exec SequenceReply
refuse flags e dst =
    ok (record { flags = flags; reply = record { read = 0; written = 0; error = e; dst = dst } })

abbrev pub start : ℕ → List ℕ → List ℕ → List ℕ → Progress
start flags src spare dst = record {
  flags = flags;
  len = length src;
  in_ = record { bytes = src; hidden = spare };
  out = record { bytes = dst; hidden = [] };
  swaps = 0;
  err = none;
}

-- `spare` is the array behind `src`, up to its capacity.
unfoldable pub forward : Sequence → (spare : List ℕ) → Slices → Exec SequenceReply
unfolding refuse
forward q spare b =
    let required_size = max_encoded_len q.transforms (length b.src) in
    if length b.src == 0
    then refuse transform_skip_mask none b.dst
    else if length b.dst == 0
    then panic
    else if b.same
    then refuse transform_skip_mask (some same_buffers) b.dst
    else if ltb (length b.dst) required_size
    then refuse transform_skip_mask (some small_output) b.dst
    else (forward_loop required_size 0 q.transforms (start transform_skip_mask b.src spare b.dst)
        >>= end_forward (length b.src))

unfoldable pub after_inverse : Progress → Buffer → Reply → Progress
after_inverse s out r = elim r.error [
  | some e ↦ record {
    flags = s.flags;
    len = r.written;
    in_ = s.in_;
    out = record { bytes = r.dst; hidden = out.hidden };
    swaps = s.swaps;
    err = some e;
  }
  | none ↦ record {
    flags = s.flags;
    len = r.written;
    in_ = record { bytes = r.dst; hidden = out.hidden };
    out = s.in_;
    swaps = s.swaps + 1;
    err = none;
  }
]

-- One round of the loop of `Inverse`; behind an error the loop has ended.
unfoldable pub inverse_round :
    (dst_len i : ℕ) → ByteTransform → Progress → Option Error → Exec Progress
inverse_round dst_len i t s (some e) = ok s
inverse_round dst_len i t s none = elim (skipped s.flags i) [
  | true ↦ ok s
  | false ↦ do
    src ← slice_of s.len s.in_
    let out = grow dst_len s.out
    r ← t.inverse (slices src out.bytes)
    ok (after_inverse s out r)
]

unfoldable pub inverse_step : (dst_len i : ℕ) → ByteTransform → Progress → Exec Progress
inverse_step dst_len i t s = inverse_round dst_len i t s s.err

-- The loop goes down: the transforms behind index `i` come before that of index `i`.
unfoldable pub inverse_loop : (dst_len i : ℕ) → List ByteTransform → Progress → Exec Progress
inverse_loop dst_len i [] s = ok s
inverse_loop dst_len i (t ∷ ts) s = inverse_loop dst_len (i + 1) ts s >>= inverse_step dst_len i t

-- `dst` after the loop, and the final copy into it.
unfoldable pub end_inverse : (block_size : ℕ) → Progress → Exec Reply
end_inverse block_size s = elim s.err [
  | some e ↦ ok (record {
    read = block_size;
    written = s.len;
    error = some e;
    dst = if odd s.swaps then s.in_.bytes else s.out.bytes;
  })
  | none ↦
      if odd s.swaps
      then ok (record { read = block_size; written = s.len; error = none; dst = s.in_.bytes })
      else if ltb (length s.out.bytes) s.len
      then ok
          (record { read = block_size; written = s.len; error = some failed; dst = s.out.bytes })
      else (do
        stored ← slice_of s.len s.in_
        ok (record {
          read = block_size;
          written = s.len;
          error = none;
          dst = overwrite stored s.out.bytes;
        }))
]

unfoldable pub inverse : Sequence → (spare : List ℕ) → Slices → Exec Reply
inverse q spare b =
    if length b.src == 0
    then ok (record { read = 0; written = 0; error = none; dst = b.dst })
    else if length b.dst == 0
    then panic
    else if b.same
    then ok (record { read = 0; written = 0; error = some same_buffers; dst = b.dst })
    else if q.skip_flags == transform_skip_mask
    then ok (record {
      read = length b.src;
      written = length b.src;
      error = none;
      dst = overwrite (take (length b.dst) b.src) b.dst;
    })
    else (inverse_loop (length b.dst) 0 q.transforms (start q.skip_flags b.src spare b.dst)
        >>= end_inverse (length b.src))
