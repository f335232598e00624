-- ===== src/Entropy/Binary/Bytes.antt =====
-- Whole bytes, and the bytes of a chunk.
use kanzi_go.Base.{
  ℕ, suc, ◌<◌, ◌≤◌, ◌≡◌, refl, sym, ap, ◌∙◌, List, [], ◌∷◌, ◌++◌, u8, shl, append_assoc, length,
  bit_or, Exec, ok, ◌>>=◌, IsBytes, bind_cong, bind_assoc,
}
use kanzi_go.Base.Bits.{agree_below, agree_below→eq}
use kanzi_go.Base.Digits.{bits, byte_bits, length-bits}
use kanzi_go.Entropy.Predictor.{Predictor}
use kanzi_go.Entropy.Binary.{Decoder, decode_next, decode_byte, decode_chunk}
use kanzi_go.Entropy.Binary.Interval.{
  Interval, IsOpen, code, final, final_state, final-IsOpen, final_state-IsValid, code-append,
  final-append, final_state-append, bits-AreBits, byte_bits-AreBits,
}
use kanzi_go.Entropy.Binary.Window.{window, Contains, code-Contains, code-IsBytes, length-code}
use kanzi_go.Entropy.Binary.Decode.{Follows, decode_all, decode_all_lem}

-- `DecodeBit(…)<<7 | … | DecodeBit(…)`
unfoldable byte_of : List ℕ → ℕ
byte_of (b7 ∷ b6 ∷ b5 ∷ b4 ∷ b3 ∷ b2 ∷ b1 ∷ b0 ∷ []) =
    bit_or
      (bit_or
        (bit_or
          (bit_or
            (bit_or (bit_or (bit_or (u8 (shl b7 7)) (u8 (shl b6 6))) (u8 (shl b5 5)))
              (u8 (shl b4 4)))
            (u8 (shl b3 3)))
          (u8 (shl b2 2)))
        (u8 (shl b1 1)))
      b0
byte_of rest = 0

joined : ℕ → ℕ
unfolding byte_of bits
joined val = byte_of (bits 8 val)

same : ℕ → ℕ
same val = val

byte_of-bits : (val : ℕ) → val < 256 → byte_of (bits 8 val) ≡ val
unfolding joined same agree_below byte_of bits
byte_of-bits val h = agree_below→eq joined same 256 refl val h

module _ (P : Predictor) where
  finish : List ℕ × Decoder P → Exec (ℕ × Decoder P)
  finish q = ok (byte_of q.0, q.1)

  unroll :
      (n : ℕ) (t : Decoder P) (k : List ℕ × Decoder P → Exec (ℕ × Decoder P))
      → (decode_all P (suc n) t >>= k)
        ≡ (decode_next P t >>= λ r. decode_all P n r.1 >>= λ q. k (r.0 ∷ q.0, q.1))
  unfolding decode_all
  unroll n t k =
      bind_assoc (decode_next P t) (λ r. decode_all P n r.1 >>= λ q. ok (r.0 ∷ q.0, q.1)) k
      ∙ bind_cong (decode_next P t)
          λ r. bind_assoc (decode_all P n r.1) (λ q. ok (r.0 ∷ q.0, q.1)) k

  decode_byte_eq : (t : Decoder P) → (decode_all P 8 t >>= finish) ≡ decode_byte P t
  unfolding decode_byte decode_all finish byte_of
  decode_byte_eq t =
      unroll 7 t (λ q. finish (q.0, q.1))
      ∙ bind_cong (decode_next P t) λ r7.
        unroll 6 r7.1 (λ q. finish (r7.0 ∷ q.0, q.1))
        ∙ bind_cong (decode_next P r7.1) λ r6.
          unroll 5 r6.1 (λ q. finish (r7.0 ∷ r6.0 ∷ q.0, q.1))
          ∙ bind_cong (decode_next P r6.1) λ r5.
            unroll 4 r5.1 (λ q. finish (r7.0 ∷ r6.0 ∷ r5.0 ∷ q.0, q.1))
            ∙ bind_cong (decode_next P r5.1) λ r4.
              unroll 3 r4.1 (λ q. finish (r7.0 ∷ r6.0 ∷ r5.0 ∷ r4.0 ∷ q.0, q.1))
              ∙ bind_cong (decode_next P r4.1) λ r3.
                unroll 2 r3.1 (λ q. finish (r7.0 ∷ r6.0 ∷ r5.0 ∷ r4.0 ∷ r3.0 ∷ q.0, q.1))
                ∙ bind_cong (decode_next P r3.1) λ r2.
                  unroll 1 r2.1 (λ q. finish (r7.0 ∷ r6.0 ∷ r5.0 ∷ r4.0 ∷ r3.0 ∷ r2.0 ∷ q.0, q.1))
                  ∙ bind_cong (decode_next P r2.1) λ r1.
                    unroll 0 r1.1
                      (λ q. finish (r7.0 ∷ r6.0 ∷ r5.0 ∷ r4.0 ∷ r3.0 ∷ r2.0 ∷ r1.0 ∷ q.0, q.1))
                    ∙ bind_cong (decode_next P r1.1) λ r0. refl

  decode_byte_lem :
      (val : ℕ) (t t' : Decoder P)
      → val < 256
      → decode_all P (length (bits 8 val)) t ≡ ok (bits 8 val, t')
      → decode_byte P t ≡ ok (val, t')
  unfolding finish
  decode_byte_lem val t t' h e =
      let e' = rw (length-bits 8 val) at e in
      sym (decode_byte_eq t) ∙ ap (λ r. r >>= finish) e' ∙ ap (λ v. ok (v, t')) (byte_of-bits val h)

  pub decode_chunk_lem :
      (buf : List ℕ) (t : Decoder P) (i : Interval) (s : P.State) (l stale : List ℕ)
      → IsOpen i
      → P.IsValid s
      → IsBytes buf
      → IsBytes l
      → 7 ≤ length l
      → Contains (final P i s (byte_bits buf)) (window l)
      → Follows P t i s (code P i s (byte_bits buf) ++ l) stale
      → (t' : Decoder P) × (decode_chunk P (length buf) t ≡ ok (buf, t'))
        × Follows P t' (final P i s (byte_bits buf)) (final_state P s (byte_bits buf)) l stale
  unfolding decode_chunk code final final_state
  decode_chunk_lem [] t i s l stale o v b h k c f = (t, refl, f)
  decode_chunk_lem (val ∷ buf) t i s l stale o v b h k c f =
      let xs = bits 8 val in
      let ys = byte_bits buf in
      let i1 = final P i s xs in
      let s1 = final_state P s xs in
      let o1 = final-IsOpen P i s xs o v (bits-AreBits P 8 val) in
      let v1 = final_state-IsValid P s xs v (bits-AreBits P 8 val) in
      let c1 = rw (final-append P i s xs ys) at c in
      let l1 = code P i1 s1 ys ++ l in
      let split =
        rw (code-append P i s xs ys, append_assoc (code P i s xs) (code P i1 s1 ys) l) at f in
      let (t1, e1, f1) =
        decode_all_lem P xs t i s l1 stale o v (bits-AreBits P 8 val) (code-IsBytes P i1 s1 ys l h)
          (length-code P i1 s1 ys l k)
          (code-Contains P i1 s1 ys l o1 v1 (byte_bits-AreBits P buf) h k c1) split in
      let (t2, e2, f2) = decode_chunk_lem buf t1 i1 s1 l stale o1 v1 b.1 h k c1 f1 in
      (
        t2,
        rw (decode_byte_lem val t t1 b.0 e1) (rw e2 refl),
        rw (final-append P i s xs ys, final_state-append P s xs ys) f2,
      )
