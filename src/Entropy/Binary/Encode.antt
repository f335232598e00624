-- ===== src/Entropy/Binary/Encode.antt =====
-- The encoder follows the intervals. Its bounds keep eight settled bits on top of the 56.
use kanzi_go.Base.Bytes.{take-IsBytes, drop-IsBytes, append-IsBytes}
use kanzi_go.Base.{
  ℕ, IsBytes, ◌+◌, ◌-◌, ◌*◌, ◌/◌, ◌%◌, ◌^◌, ◌<◌, ◌≤◌, ◌≡◌, ◌≢◌, refl, sym, ap, ◌∙◌, arith, true,
  false, List, [], ◌∷◌, ◌++◌, u32, u64, sub64, shl, shr, ◌==◌, ltb, leb, Bool-cases, inl, inr,
  append_assoc, append-nil, ap₂, bind_cong, bind_assoc, bind_ok, length, length-append, take, drop,
  bit_xor, bit_or, bit_and, Exec, ok, ◌>>=◌, length-drop, take-length-append,
}
use kanzi_go.Base.Xor.{xor_lt_iff}
use kanzi_go.Base.Masks.{or_fields, and_mask}
use kanzi_go.Base.Digits.{bits, byte_bits}
use kanzi_go.Entropy.Predictor.{Predictor}
use kanzi_go.Entropy.Binary.{
  Encoder, narrow_encoder, flush, flush_if_settled, encode_bit, encode_next, encode_byte,
  encode_chunk, put_uint32, word_bytes, split_offset, binary_mask_0_32,
}
use kanzi_go.Entropy.Binary.Interval.{
  Interval, IsOpen, narrow, narrow-IsWithin, settle, emitted, is_settled, settled_word, shifted,
  split_at, split_bound, weighted, bit_interval, next_state, next_state-IsValid, bit-IsOpen, code,
  final, final_state, AreBits,
}
use native.Mathlib.Nat.{mod-eq_of_lt}

-- `x ^ y < 1 << 24` below the top, which the two share.
pub settled_lem :
    (top low high : ℕ)
    → ltb (bit_xor (top * 2 ^ 56 + low) (top * 2 ^ 56 + high)) (shl 1 24)
      ≡ (low / 2 ^ 24 == high / 2 ^ 24)
settled_lem top low high =
    let x = xor_lt_iff 24 (top * 2 ^ 56 + low) (top * 2 ^ 56 + high) in
    elim (Bool-cases (low / 2 ^ 24 == high / 2 ^ 24)) [
      | inl e ↦
          let same : low / 2 ^ 24 ≡ high / 2 ^ 24 = ground arith in
          let small = x.1 (omega arith) in rw e (ground (arith, small))
      | inr e ↦
          let differ : low / 2 ^ 24 ≢ high / 2 ^ 24 = ground arith in
          let large : ¬ (bit_xor (top * 2 ^ 56 + low) (top * 2 ^ 56 + high) < 2 ^ 24) =
            λ small. let q = x.0 small in absurd (omega arith) in
          rw e (ground (arith, large))
    ]

module _ (P : Predictor) where
  -- `out` is what the buffer holds up to `index`.
  pub record Matches (room : ℕ) (t : Encoder P) (i : Interval) (s : P.State) (out : List ℕ)
      : Type 0 where
    pub top : ℕ
    pub top_byte : top < 256
    pub low_eq : t.low ≡ top * 2 ^ 56 + i.low
    pub high_eq : t.high ≡ top * 2 ^ 56 + i.high
    pub state_eq : t.predictor ≡ s
    pub written : take t.index t.buffer ≡ out
    pub index_eq : t.index ≡ length out
    pub room_eq : length t.buffer ≡ room
    pub in_use : t.disposed ≡ false
    pub bytes : IsBytes t.buffer

  split_lem :
      (t : Encoder P) (i : Interval) (top p : ℕ)
      → t.low ≡ top * 2 ^ 56 + i.low
      → t.high ≡ top * 2 ^ 56 + i.high
      → top < 256
      → IsOpen i
      → p < 4096
      → t.low + split_offset P t.low t.high p ≡ top * 2 ^ 56 + split_at i p
  split_lem t i top p l h b o k =
      let n = o.nonempty in
      let m = o.bound in
      let d : sub64 t.high t.low ≡ i.high - i.low = omega arith in
      let w = weighted ((i.high - i.low) / 16) p k in
      let prod : u64 (shr (sub64 t.high t.low) 4 * p) ≡ (i.high - i.low) / 16 * p =
        rw d (mod-eq_of_lt (omega (arith, w))) in
      omega (arith, prod, l)

  narrow_lem :
      (room : ℕ) (t : Encoder P) (i : Interval) (s : P.State) (out : List ℕ) (bit p : ℕ)
      → Matches room t i s out
      → IsOpen i
      → p < 4096
      → Matches room (narrow_encoder P t bit p) (narrow i bit p) (P.update s bit) out
  unfolding narrow_encoder narrow
  narrow_lem room t i s out bit p m o k =
      let low_eq = m.low_eq in
      let high_eq = m.high_eq in
      let top_byte = m.top_byte in
      let bound = o.bound in
      let sum = split_lem t i m.top p low_eq high_eq top_byte o k in
      let below = split_bound i p o.nonempty k in
      elim (Bool-cases (bit == 0)) [
        | inl e ↦ rw e (record {
          top = m.top;
          top_byte = top_byte;
          low_eq = omega (arith, sum, below);
          high_eq = high_eq;
          state_eq = ap (λ q. P.update q bit) m.state_eq;
          written = m.written;
          index_eq = m.index_eq;
          room_eq = m.room_eq;
          in_use = m.in_use;
          bytes = m.bytes;
        })
        | inr e ↦ rw e (record {
          top = m.top;
          top_byte = top_byte;
          low_eq = low_eq;
          high_eq = omega (arith, sum, below);
          state_eq = ap (λ q. P.update q bit) m.state_eq;
          written = m.written;
          index_eq = m.index_eq;
          room_eq = m.room_eq;
          in_use = m.in_use;
          bytes = m.bytes;
        })
      ]

  put_lem :
      (buffer : List ℕ) (index w : ℕ) (out : List ℕ)
      → take index buffer ≡ out
      → index ≡ length out
      → length out + 4 ≤ length buffer
      → IsBytes buffer
      → (buffer' : List ℕ) × (put_uint32 buffer index w ≡ ok buffer')
        × (take (index + 4) buffer' ≡ out ++ word_bytes w)
        × (length buffer' ≡ length buffer)
        × IsBytes buffer'
  unfolding put_uint32
  put_lem buffer index w out e l h i =
      let room : leb (index + 4) (length buffer) ≡ true = ground arith in
      let rest = drop (index + 4) buffer in
      let n : index + 4 ≡ length (out ++ word_bytes w) =
        omega (arith, length-append out (word_bytes w)) in
      (
        out ++ (word_bytes w ++ rest),
        rw (room, e),
        ap (λ k. take k (out ++ (word_bytes w ++ rest))) n
            ∙ ap (take (length (out ++ word_bytes w))) (sym (append_assoc out (word_bytes w) rest))
            ∙ take-length-append (out ++ word_bytes w) rest,
        omega
            (arith, length-append out (word_bytes w ++ rest), length-drop (index + 4) buffer, h, l),
        append-IsBytes out (word_bytes w ++ rest) (rw e at (take-IsBytes index buffer i)) (
            append-IsBytes (word_bytes w) rest
              (omega arith, (omega arith, (omega arith, (omega arith, tt))))
              (drop-IsBytes (index + 4) buffer i)),
      )

  word_lem :
      (top high : ℕ)
      → high < 2 ^ 56
      → top < 256
      → u32 (shr (top * 2 ^ 56 + high) 24) ≡ high / 2 ^ 24
  word_lem top high h b = omega arith

  flush_lem :
      (room : ℕ) (t : Encoder P) (i : Interval) (s : P.State) (out : List ℕ)
      → Matches room t i s out
      → i.high < 2 ^ 56
      → i.low ≤ i.high
      → i.low / 2 ^ 24 ≡ i.high / 2 ^ 24
      → length out + 4 ≤ room
      → (t' : Encoder P) × (flush P t ≡ ok t')
        × Matches room t' (shifted i) s (out ++ word_bytes (settled_word i))
  unfolding flush
  flush_lem room t i s out m b n same h =
      let low_eq = m.low_eq in
      let high_eq = m.high_eq in
      let top_byte = m.top_byte in
      let index_eq = m.index_eq in
      let room_eq = m.room_eq in
      let word : u32 (shr t.high 24) ≡ settled_word i =
        ap (λ x. u32 (shr x 24)) high_eq ∙ word_lem m.top i.high b top_byte in
      let (buffer', e, w, l, i') =
        put_lem t.buffer t.index (settled_word i) out m.written index_eq (omega (arith, room_eq))
          m.bytes in
      let keep : bit_or (u64 (shl t.high 32)) binary_mask_0_32
          ≡ t.high % 2 ^ 32 * 2 ^ 32 + (2 ^ 32 - 1) =
        ap (λ x. bit_or x binary_mask_0_32) shift
        ∙ or_fields 32 (t.high % 2 ^ 32) (2 ^ 32 - 1) (omega arith) in
      (
        record t {
          buffer = buffer';
          index = t.index + 4;
          low = u64 (shl t.low 32);
          high = bit_or (u64 (shl t.high 32)) binary_mask_0_32;
        },
        rw word (rw e refl),
        record {
          top = i.high / 2 ^ 24 % 256;
          top_byte = omega arith;
          low_eq = omega (arith, low_eq, same);
          high_eq = keep ∙ omega (arith, high_eq);
          state_eq = m.state_eq;
          written = w;
          index_eq = omega (arith, index_eq, length-append out (word_bytes (settled_word i)));
          room_eq = l ∙ room_eq;
          in_use = m.in_use;
          bytes = i';
        },
      )
    where
      shift : u64 (shl t.high 32) ≡ t.high % 2 ^ 32 * 2 ^ 32
      shift = omega arith

  flush_if_settled_lem :
      (room : ℕ) (t : Encoder P) (i : Interval) (s : P.State) (out : List ℕ)
      → Matches room t i s out
      → i.high < 2 ^ 56
      → i.low ≤ i.high
      → length out + length (emitted i) ≤ room
      → (t' : Encoder P) × (flush_if_settled P t ≡ ok t')
        × Matches room t' (settle i) s (out ++ emitted i)
  unfolding flush_if_settled emitted settle
  flush_if_settled_lem room t i s out m b n h =
      let test : ltb (bit_xor t.low t.high) (shl 1 24) ≡ is_settled i =
        ap₂ (λ x y. ltb (bit_xor x y) (shl 1 24)) m.low_eq m.high_eq
        ∙ settled_lem m.top i.low i.high in
      elim (Bool-cases (is_settled i)) [
        | inl e ↦
            let same : i.low / 2 ^ 24 ≡ i.high / 2 ^ 24 = ground arith in
            let h' : length out + 4 ≤ room = rw e at h in
            rw (test, e, flush_if_settled) (flush_lem room t i s out m b n same h')
        | inr e ↦ rw (test, e, flush_if_settled) (t, refl, rw (append-nil out) m)
      ]

  with_state :
      (room : ℕ) (t : Encoder P) (i : Interval) (s s' : P.State) (out : List ℕ)
      → Matches room t i s out
      → Matches room (record t { predictor = s' }) i s' out
  with_state room t i s s' out m = record {
    top = m.top;
    top_byte = m.top_byte;
    low_eq = m.low_eq;
    high_eq = m.high_eq;
    state_eq = refl;
    written = m.written;
    index_eq = m.index_eq;
    room_eq = m.room_eq;
    in_use = m.in_use;
    bytes = m.bytes;
  }

  encode_next_lem :
      (room : ℕ) (t : Encoder P) (i : Interval) (s : P.State) (out : List ℕ) (bit : ℕ)
      → Matches room t i s out
      → IsOpen i
      → P.IsValid s
      → length out + length (emitted (bit_interval P i s bit)) ≤ room
      → (t' : Encoder P) × (encode_next P bit t ≡ ok t')
        × Matches room t'
            (settle (bit_interval P i s bit))
            (next_state P s bit)
            (out ++ emitted (bit_interval P i s bit))
  unfolding encode_next encode_bit
  encode_next_lem room t i s out bit m o v h =
      let w = narrow-IsWithin i bit (P.get s).0 o (P.get_law s v).0 in
      let bound = o.bound in
      let below = w.below in
      rw m.state_eq (
        flush_if_settled_lem room _ (bit_interval P i s bit) (next_state P s bit) out
          (narrow_lem room _ i (P.get s).1 out bit (P.get s).0
            (with_state room t i s (P.get s).1 out m) o (P.get_law s v).0)
          (omega arith) w.nonempty h)

  -- Any sequence of bits.
  unfoldable pub encode_all : List ℕ → Encoder P → Exec (Encoder P)
  encode_all [] t = ok t
  encode_all (bit ∷ bits) t = do t' ← encode_next P bit t; encode_all bits t'

  pub encode_all_lem :
      (room : ℕ) (bits : List ℕ) (t : Encoder P) (i : Interval) (s : P.State) (out : List ℕ)
      → Matches room t i s out
      → IsOpen i
      → P.IsValid s
      → AreBits P bits
      → length out + length (code P i s bits) ≤ room
      → (t' : Encoder P) × (encode_all bits t ≡ ok t')
        × Matches room t' (final P i s bits) (final_state P s bits) (out ++ code P i s bits)
  unfolding encode_all code final final_state
  encode_all_lem room [] t i s out m o v b h = (t, refl, rw (append-nil out) m)
  encode_all_lem room (bit ∷ bits) t i s out m o v b h =
      let here = emitted (bit_interval P i s bit) in
      let there = code P (settle (bit_interval P i s bit)) (next_state P s bit) bits in
      let l = length-append here there in
      let (t1, e1, m1) = encode_next_lem room t i s out bit m o v (omega (arith, h, l)) in
      let (t2, e2, m2) =
        encode_all_lem room bits t1 (settle (bit_interval P i s bit)) (next_state P s bit)
          (out ++ here) m1 (bit-IsOpen P i s bit o v) (next_state-IsValid P s bit v b.0) b.1
          (omega (arith, h, l, length-append out here)) in
      (t2, rw e1 e2, rw (append_assoc out here there) at m2)

  encode_all-append :
      (xs ys : List ℕ) (t : Encoder P)
      → encode_all (xs ++ ys) t ≡ (encode_all xs t >>= encode_all ys)
  unfolding encode_all
  encode_all-append [] ys t = refl
  encode_all-append (x ∷ xs) ys t =
      bind_cong (encode_next P x t) (λ t'. encode_all-append xs ys t')
      ∙ sym (bind_assoc (encode_next P x t) (encode_all xs) (encode_all ys))

  -- `EncodeByte` goes through the bits of the byte.
  encode_byte_lem : (t : Encoder P) (val : ℕ) → encode_byte P t val ≡ encode_all (bits 8 val) t
  unfolding encode_byte encode_all bits
  encode_byte_lem t val =
      let last : bit_and val 1 ≡ val / 2 ^ 0 % 2 = omega (arith, and_mask 1 val) in
      rw
        (
          and_mask 1 (shr val 7),
          and_mask 1 (shr val 6),
          and_mask 1 (shr val 5),
          and_mask 1 (shr val 4),
          and_mask 1 (shr val 3),
          and_mask 1 (shr val 2),
          and_mask 1 (shr val 1),
          last,
        )
        (bind_cong (encode_next P (val / 2 ^ 7 % 2) t) λ t1.
          bind_cong (encode_next P (val / 2 ^ 6 % 2) t1) λ t2.
            bind_cong (encode_next P (val / 2 ^ 5 % 2) t2) λ t3.
              bind_cong (encode_next P (val / 2 ^ 4 % 2) t3) λ t4.
                bind_cong (encode_next P (val / 2 ^ 3 % 2) t4) λ t5.
                  bind_cong (encode_next P (val / 2 ^ 2 % 2) t5) λ t6.
                    bind_cong (encode_next P (val / 2 ^ 1 % 2) t6)
                      λ t7. sym (bind_ok (encode_next P (val / 2 ^ 0 % 2) t7)))

  pub encode_chunk_lem :
      (buf : List ℕ) (t : Encoder P) → encode_chunk P t buf ≡ encode_all (byte_bits buf) t
  unfolding encode_chunk encode_all
  encode_chunk_lem [] t = refl
  encode_chunk_lem (val ∷ buf) t = rw (encode_byte_lem t val) (
      bind_cong (encode_all (bits 8 val) t) (λ t'. encode_chunk_lem buf t')
      ∙ sym (encode_all-append (bits 8 val) (byte_bits buf) t))
