-- ===== src/Entropy/Binary/Window.antt =====
-- The number that the decoder looks at: the next seven bytes of the code.
use kanzi_go.Base.{
  ℕ, ◌+◌, ◌*◌, ◌/◌, ◌%◌, ◌^◌, ◌<◌, ◌≤◌, ◌≡◌, refl, arith, List, [], ◌∷◌, ◌++◌, Bool-cases, inl, inr,
  length, length-append, append_assoc, IsBytes, drop, ok,
}
use kanzi_go.Entropy.Predictor.{Predictor}
use kanzi_go.Entropy.Binary.{word_bytes, word_of}
use kanzi_go.Entropy.Binary.Interval.{
  Interval, IsOpen, narrow-IsWithin, settle, emitted, is_settled, settled_word, bit_interval,
  next_state, next_state-IsValid, bit-IsOpen, code, final, AreBits,
}

unfoldable pub window : List ℕ → ℕ
window (a ∷ b ∷ c ∷ d ∷ e ∷ f ∷ g ∷ rest) =
    a * 2 ^ 48 + b * 2 ^ 40 + c * 2 ^ 32 + d * 2 ^ 24 + e * 2 ^ 16 + f * 2 ^ 8 + g
window rest = 0

-- Seven bytes can be taken off.
pub record Seven (l : List ℕ) : Type 0 where
  pub a : ℕ
  pub b : ℕ
  pub c : ℕ
  pub d : ℕ
  pub e : ℕ
  pub f : ℕ
  pub g : ℕ
  pub rest : List ℕ
  pub eq : l ≡ a ∷ b ∷ c ∷ d ∷ e ∷ f ∷ g ∷ rest
  pub bytes : IsBytes (a ∷ b ∷ c ∷ d ∷ e ∷ f ∷ g ∷ rest)

pub seven : (l : List ℕ) → IsBytes l → 7 ≤ length l → Seven l
seven (a ∷ b ∷ c ∷ d ∷ e ∷ f ∷ g ∷ rest) h k = record {
  a = a;
  b = b;
  c = c;
  d = d;
  e = e;
  f = f;
  g = g;
  rest = rest;
  eq = refl;
  bytes = h;
}
seven [] h k = absurd (omega arith)
seven (a ∷ []) h k = absurd (omega arith)
seven (a ∷ b ∷ []) h k = absurd (omega arith)
seven (a ∷ b ∷ c ∷ []) h k = absurd (omega arith)
seven (a ∷ b ∷ c ∷ d ∷ []) h k = absurd (omega arith)
seven (a ∷ b ∷ c ∷ d ∷ e ∷ []) h k = absurd (omega arith)
seven (a ∷ b ∷ c ∷ d ∷ e ∷ f ∷ []) h k = absurd (omega arith)

-- A word in front of the code,
pub window-word :
    (w : ℕ) (l : List ℕ)
    → w < 2 ^ 32
    → IsBytes l
    → 7 ≤ length l
    → window (word_bytes w ++ l) ≡ w * 2 ^ 24 + window l / 2 ^ 32
unfolding window
window-word w l h b k = let s = seven l b k in let bs = s.bytes in rw s.eq (omega arith)

-- and what is behind it, from the last three bytes of the window and the word after it.
pub window-next :
    (w : ℕ) (l stale : List ℕ)
    → w < 2 ^ 32
    → IsBytes l
    → 7 ≤ length l
    → (val : ℕ) × (word_of (drop 7 (word_bytes w ++ l) ++ stale) ≡ ok val)
      × (val < 2 ^ 32)
      × (window (word_bytes w ++ l) % 2 ^ 24 * 2 ^ 32 + val ≡ window l)
      × (drop 4 (drop 7 (word_bytes w ++ l) ++ stale) ≡ drop 7 l ++ stale)
unfolding window
window-next w l stale h b k =
    let s = seven l b k in
    let bs = s.bytes in
    (
      s.d * 2 ^ 24 + s.e * 2 ^ 16 + s.f * 2 ^ 8 + s.g,
      rw s.eq refl,
      omega arith,
      rw s.eq (omega arith),
      rw s.eq refl,
    )

abbrev pub Contains : Interval → ℕ → Type 0
Contains i v = (i.low ≤ v) × (v ≤ i.high)

pub word_bytes-IsBytes : (w : ℕ) (l : List ℕ) → IsBytes l → IsBytes (word_bytes w ++ l)
word_bytes-IsBytes w l h = (omega arith, (omega arith, (omega arith, (omega arith, h))))

pub emitted-IsBytes : (i : Interval) (l : List ℕ) → IsBytes l → IsBytes (emitted i ++ l)
unfolding emitted
emitted-IsBytes i l h = elim (Bool-cases (is_settled i)) [
  | inl e ↦ rw e (word_bytes-IsBytes (settled_word i) l h)
  | inr e ↦ rw e h
]

pub emitted-Contains :
    (i : Interval) (l : List ℕ)
    → i.high < 2 ^ 56
    → IsBytes l
    → 7 ≤ length l
    → Contains (settle i) (window l)
    → Contains i (window (emitted i ++ l))
unfolding emitted settle
emitted-Contains i l h b k c = elim (Bool-cases (is_settled i)) [
  | inl e ↦
      let same : i.low / 2 ^ 24 ≡ i.high / 2 ^ 24 = ground arith in
      let d = rw e at c in
      rw e (
        rw (window-word (settled_word i) l (omega arith) b k)
          (omega (arith, d.0, same), omega (arith, d.1, same)))
  | inr e ↦ rw e (rw e at c)
]

module _ (P : Predictor) where
  pub code-IsBytes :
      (i : Interval) (s : P.State) (bits l : List ℕ) → IsBytes l → IsBytes (code P i s bits ++ l)
  unfolding code
  code-IsBytes i s [] l h = h
  code-IsBytes i s (bit ∷ bits) l h =
      rw
        (append_assoc (emitted (bit_interval P i s bit))
          (code P (settle (bit_interval P i s bit)) (next_state P s bit) bits) l)
        (emitted-IsBytes (bit_interval P i s bit) _
          (code-IsBytes (settle (bit_interval P i s bit)) (next_state P s bit) bits l h))

  pub length-code :
      (i : Interval) (s : P.State) (bits l : List ℕ)
      → 7 ≤ length l
      → 7 ≤ length (code P i s bits ++ l)
  length-code i s bits l h = omega (arith, length-append (code P i s bits) l)

  -- If the code ends in the final interval, all of it is in the first one.
  pub code-Contains :
      (i : Interval) (s : P.State) (bits l : List ℕ)
      → IsOpen i
      → P.IsValid s
      → AreBits P bits
      → IsBytes l
      → 7 ≤ length l
      → Contains (final P i s bits) (window l)
      → Contains i (window (code P i s bits ++ l))
  unfolding code final
  code-Contains i s [] l o v b h k c = c
  code-Contains i s (bit ∷ bits) l o v b h k c =
      let j = bit_interval P i s bit in
      let rest = code P (settle j) (next_state P s bit) bits in
      let w = narrow-IsWithin i bit (P.get s).0 o (P.get_law s v).0 in
      let bound = o.bound in
      let below = w.below in
      let above = w.above in
      let there =
        code-Contains (settle j) (next_state P s bit) bits l (bit-IsOpen P i s bit o v)
          (next_state-IsValid P s bit v b.0) b.1 h k c in
      let here =
        emitted-Contains j (rest ++ l) (omega arith)
          (code-IsBytes (settle j) (next_state P s bit) bits l h)
          (length-code (settle j) (next_state P s bit) bits l k) there in
      rw (append_assoc (emitted j) rest l) (omega (arith, here.0), omega (arith, here.1))
