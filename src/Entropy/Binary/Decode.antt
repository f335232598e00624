-- ===== src/Entropy/Binary/Decode.antt =====
-- The decoder follows the intervals of the bits that were encoded.
use kanzi_go.Base.{
  ℕ, zero, suc, ◌+◌, ◌-◌, ◌*◌, ◌/◌, ◌%◌, ◌^◌, ◌<◌, ◌≤◌, ◌≡◌, refl, ap, ap₂, ◌∙◌, arith, List, [],
  ◌∷◌, ◌++◌, u64, sub64, shl, shr, ◌==◌, ltb, leb, if◌then◌else◌, Bool-cases, inl, inr,
  append_assoc, length, drop, bit_xor, bit_or, bit_and, Exec, ok, ◌>>=◌, IsBytes, drop-add,
}
use kanzi_go.Base.Masks.{or_fields, and_mask}
use kanzi_go.Base.Digits.{bits}
use kanzi_go.Entropy.Predictor.{Predictor}
use kanzi_go.Entropy.Binary.{
  Decoder, narrow_decoder, read_word, read_if_settled, decode_bit, decode_next, word_bytes,
  split_offset, binary_mask_0_32, binary_mask_0_56,
}
use kanzi_go.Entropy.Binary.Interval.{
  Interval, IsOpen, narrow, narrow-IsWithin, settle, emitted, is_settled, settled_word, shifted,
  split_at, split_bound, weighted, bit_interval, next_state, next_state-IsValid, bit-IsOpen, code,
  final, final_state, AreBits,
}
use kanzi_go.Entropy.Binary.Encode.{settled_lem}
use kanzi_go.Entropy.Binary.Window.{
  window, window-next, Contains, emitted-Contains, code-Contains, code-IsBytes, length-code,
}
use native.Mathlib.Nat.{mod-eq_of_lt}

module _ (P : Predictor) where
  -- `l` is the code from the window on; behind it the buffer holds what an earlier chunk left.
  pub record Follows (t : Decoder P) (i : Interval) (s : P.State) (l stale : List ℕ) : Type 0 where
    pub low_eq : t.low ≡ i.low
    pub high_eq : t.high ≡ i.high
    pub state_eq : t.predictor ≡ s
    pub current_eq : t.current ≡ window l
    pub behind : drop t.index t.buffer ≡ drop 7 l ++ stale

  split_lem :
      (low high p : ℕ)
      → low < high
      → high < 2 ^ 56
      → p < 4096
      → u64 (split_offset P low high p + low) ≡ low + (high - low) / 16 * p / 256
  split_lem low high p h b k =
      let d : sub64 high low ≡ high - low = omega arith in
      let w = weighted ((high - low) / 16) p k in
      let prod : u64 (shr (sub64 high low) 4 * p) ≡ (high - low) / 16 * p =
        rw d (mod-eq_of_lt (omega (arith, w))) in
      omega (arith, prod, w)

  narrow_lem :
      (t : Decoder P) (i : Interval) (s : P.State) (l stale : List ℕ) (bit p : ℕ)
      → Follows t i s l stale
      → IsOpen i
      → p < 4096
      → Follows (narrow_decoder P t (split_at i p) bit) (narrow i bit p) (P.update s bit) l stale
  unfolding narrow_decoder narrow
  narrow_lem t i s l stale bit p f o k =
      let bound = o.bound in
      let below = split_bound i p o.nonempty k in
      elim (Bool-cases (bit == 0)) [
        | inl e ↦ rw e (record {
          low_eq = omega (arith, below);
          high_eq = f.high_eq;
          state_eq = ap (λ q. P.update q bit) f.state_eq;
          current_eq = f.current_eq;
          behind = f.behind;
        })
        | inr e ↦ rw e (record {
          low_eq = f.low_eq;
          high_eq = refl;
          state_eq = ap (λ q. P.update q bit) f.state_eq;
          current_eq = f.current_eq;
          behind = f.behind;
        })
      ]

  -- The bit that the window shows.
  bit_lem :
      (i : Interval) (bit p v : ℕ)
      → bit < 2
      → Contains (narrow i bit p) v
      → (if leb v (split_at i p) then 1 else 0) ≡ bit
  unfolding narrow
  bit_lem i zero p v h c = ground (arith, c.0)
  bit_lem i (suc zero) p v h c = ground (arith, c.1)
  bit_lem i (suc (suc bit)) p v h c = absurd (omega arith)

  -- `x<<32 | y`, cut to 56 bits.
  shift_in :
      (x y : ℕ)
      → y < 2 ^ 32
      → bit_and (bit_or (u64 (shl x 32)) y) binary_mask_0_56 ≡ x % 2 ^ 24 * 2 ^ 32 + y
  shift_in x y h =
      let e : u64 (shl x 32) ≡ x % 2 ^ 32 * 2 ^ 32 = omega arith in
      ap (λ z. bit_and (bit_or z y) binary_mask_0_56) e
      ∙ ap (λ z. bit_and z binary_mask_0_56) (or_fields 32 (x % 2 ^ 32) y h)
      ∙ and_mask 56 (x % 2 ^ 32 * 2 ^ 32 + y)
      ∙ omega arith

  read_lem :
      (t : Decoder P) (i : Interval) (s : P.State) (l stale : List ℕ)
      → i.high < 2 ^ 56
      → IsBytes l
      → 7 ≤ length l
      → Follows t i s (word_bytes (settled_word i) ++ l) stale
      → (t' : Decoder P) × (read_word P t ≡ ok t') × Follows t' (shifted i) s l stale
  unfolding read_word
  read_lem t i s l stale h b k f =
      let (val, e, small, next, rest) = window-next (settled_word i) l stale (omega arith) b k in
      let low_eq = f.low_eq in
      let high_eq = f.high_eq in
      (
        record t {
          low = bit_and (u64 (shl t.low 32)) binary_mask_0_56;
          high = bit_and (bit_or (u64 (shl t.high 32)) binary_mask_0_32) binary_mask_0_56;
          current = bit_and (bit_or (u64 (shl t.current 32)) val) binary_mask_0_56;
          index = t.index + 4;
        },
        rw f.behind (rw e refl),
        record {
          low_eq = and_mask 56 (u64 (shl t.low 32)) ∙ omega (arith, low_eq);
          high_eq =
              shift_in t.high binary_mask_0_32 (omega arith)
              ∙ ap (λ x. x % 2 ^ 24 * 2 ^ 32 + (2 ^ 32 - 1)) high_eq;
          state_eq = f.state_eq;
          current_eq =
              shift_in t.current val small
              ∙ ap (λ x. x % 2 ^ 24 * 2 ^ 32 + val) f.current_eq
              ∙ next;
          behind = drop-add t.index 4 t.buffer ∙ ap (drop 4) f.behind ∙ rest;
        },
      )

  no_top : (x : ℕ) → x ≡ 0 * 2 ^ 56 + x
  no_top x = omega arith

  read_if_settled_lem :
      (t : Decoder P) (i : Interval) (s : P.State) (l stale : List ℕ)
      → i.high < 2 ^ 56
      → IsBytes l
      → 7 ≤ length l
      → Follows t i s (emitted i ++ l) stale
      → (t' : Decoder P) × (read_if_settled P t ≡ ok t') × Follows t' (settle i) s l stale
  unfolding read_if_settled emitted settle
  read_if_settled_lem t i s l stale h b k f =
      let test : ltb (bit_xor t.low t.high) (shl 1 24) ≡ is_settled i =
        ap₂ (λ x y. ltb (bit_xor x y) (shl 1 24)) (f.low_eq ∙ no_top i.low)
          (f.high_eq ∙ no_top i.high)
        ∙ settled_lem 0 i.low i.high in
      elim (Bool-cases (is_settled i)) [
        | inl e ↦ rw (test, e, read_if_settled) (read_lem t i s l stale h b k (rw e at f))
        | inr e ↦ rw (test, e, read_if_settled) (t, refl, rw e at f)
      ]

  decode_bit_lem :
      (t t' : Decoder P) (p x bit : ℕ)
      → u64 (split_offset P t.low t.high p + t.low) ≡ x
      → (if leb t.current x then 1 else 0) ≡ bit
      → read_if_settled P (narrow_decoder P t x bit) ≡ ok t'
      → decode_bit P t p ≡ ok (bit, t')
  unfolding decode_bit
  decode_bit_lem t t' p x bit split shown e = rw split (rw shown (rw e refl))

  decode_next_lem :
      (t : Decoder P) (i : Interval) (s : P.State) (bit : ℕ) (l stale : List ℕ)
      → IsOpen i
      → P.IsValid s
      → bit < 2
      → IsBytes l
      → 7 ≤ length l
      → Contains (bit_interval P i s bit) (window (emitted (bit_interval P i s bit) ++ l))
      → Follows t i s (emitted (bit_interval P i s bit) ++ l) stale
      → (t' : Decoder P) × (decode_next P t ≡ ok (bit, t'))
        × Follows t' (settle (bit_interval P i s bit)) (next_state P s bit) l stale
  unfolding decode_next
  decode_next_lem t i s bit l stale o v h b k c f =
      let (below, valid) = P.get_law s v in
      let j = bit_interval P i s bit in
      let low_eq = f.low_eq in
      let bound = o.bound in
      let w = narrow-IsWithin i bit (P.get s).0 o below in
      let inside = w.below in
      let split : u64 (split_offset P t.low t.high (P.get s).0 + t.low) ≡ split_at i (P.get s).0 =
        ap₂ (λ x y. u64 (split_offset P x y (P.get s).0 + x)) low_eq f.high_eq
        ∙ split_lem i.low i.high (P.get s).0 o.nonempty bound below in
      let shown : (if leb t.current (split_at i (P.get s).0) then 1 else 0) ≡ bit =
        ap (λ x. if leb x (split_at i (P.get s).0) then 1 else 0) f.current_eq
        ∙ bit_lem i bit (P.get s).0 (window (emitted j ++ l)) h c in
      let g : Follows (record t { predictor = (P.get s).1 }) i (P.get s).1 (emitted j ++ l) stale =
        record {
          low_eq = low_eq;
          high_eq = f.high_eq;
          state_eq = refl;
          current_eq = f.current_eq;
          behind = f.behind;
        } in
      let (t', e, g') =
        read_if_settled_lem _ j (next_state P s bit) l stale (omega arith) b k
          (narrow_lem _ i (P.get s).1 (emitted j ++ l) stale bit (P.get s).0 g o below) in
      (
        t',
        rw f.state_eq (decode_bit_lem _ t' (P.get s).0 (split_at i (P.get s).0) bit split shown e),
        g',
      )

  -- Any number of bits, as the list that they make.
  unfoldable pub decode_all : ℕ → Decoder P → Exec (List ℕ × Decoder P)
  decode_all zero t = ok ([], t)
  decode_all (suc n) t = do
    (bit, t') ← decode_next P t
    (bits, t'') ← decode_all n t'
    ok (bit ∷ bits, t'')

  pub decode_all_lem :
      (bits : List ℕ) (t : Decoder P) (i : Interval) (s : P.State) (l stale : List ℕ)
      → IsOpen i
      → P.IsValid s
      → AreBits P bits
      → IsBytes l
      → 7 ≤ length l
      → Contains (final P i s bits) (window l)
      → Follows t i s (code P i s bits ++ l) stale
      → (t' : Decoder P) × (decode_all (length bits) t ≡ ok (bits, t'))
        × Follows t' (final P i s bits) (final_state P s bits) l stale
  unfolding decode_all code final final_state
  decode_all_lem [] t i s l stale o v b h k c f = (t, refl, f)
  decode_all_lem (bit ∷ bits) t i s l stale o v b h k c f =
      let j = bit_interval P i s bit in
      let s1 = next_state P s bit in
      let rest = code P (settle j) s1 bits in
      let o1 = bit-IsOpen P i s bit o v in
      let v1 = next_state-IsValid P s bit v b.0 in
      let w = narrow-IsWithin i bit (P.get s).0 o (P.get_law s v).0 in
      let bound = o.bound in
      let below = w.below in
      let bytes = code-IsBytes P (settle j) s1 bits l h in
      let long = length-code P (settle j) s1 bits l k in
      let there = code-Contains P (settle j) s1 bits l o1 v1 b.1 h k c in
      let (t1, e1, f1) =
        decode_next_lem t i s bit (rest ++ l) stale o v b.0 bytes long
          (emitted-Contains j (rest ++ l) (omega arith) bytes long there)
          (rw (append_assoc (emitted j) rest l) at f) in
      let (t2, e2, f2) = decode_all_lem bits t1 (settle j) s1 l stale o1 v1 b.1 h k c f1 in
      (t2, rw e1 (rw e2 refl), f2)
