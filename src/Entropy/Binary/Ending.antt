-- ===== src/Entropy/Binary/Ending.antt =====
-- The 56 bits behind the code of a chunk.
use kanzi_go.Base.{
  ℕ, ◌+◌, ◌-◌, ◌*◌, ◌/◌, ◌%◌, ◌^◌, ◌<◌, ◌≤◌, ◌≡◌, refl, sym, ap, ap₂, ◌∙◌, arith, List, [], ◌∷◌,
  ◌++◌, length, bit_or, IsBytes, drop, append-nil,
}
use kanzi_go.Base.Masks.{or_ones}
use kanzi_go.Base.Digits.{bits, byte_bits, byte_bits-append, bits-split, bits-mod_256}
use kanzi_go.Entropy.Binary.{binary_mask_0_24}
use kanzi_go.Entropy.Binary.Interval.{Interval, IsOpen}
use kanzi_go.Entropy.Binary.Window.{window, Contains, Seven, seven}

abbrev pub seven_bytes : ℕ → List ℕ
seven_bytes v =
    v / 2 ^ 48 % 256
    ∷ v / 2 ^ 40 % 256
    ∷ v / 2 ^ 32 % 256
    ∷ v / 2 ^ 24 % 256
    ∷ v / 2 ^ 16 % 256
    ∷ v / 2 ^ 8 % 256
    ∷ v % 256
    ∷ []

-- `low | 0xFFFFFF`
abbrev pub ending : Interval → ℕ
ending i = i.low / 2 ^ 24 * 2 ^ 24 + (2 ^ 24 - 1)

pub seven_bytes-IsBytes : (v : ℕ) → IsBytes (seven_bytes v)
seven_bytes-IsBytes v = (
  omega arith,
  (omega arith, (omega arith, (omega arith, (omega arith, (omega arith, (omega arith, tt)))))),
)

pub window-seven_bytes : (v : ℕ) → v < 2 ^ 56 → window (seven_bytes v) ≡ v
unfolding window
window-seven_bytes v h = omega arith

pub ending-Contains : (i : Interval) → IsOpen i → Contains i (window (seven_bytes (ending i)))
ending-Contains i o =
    let n = o.nonempty in
    let b = o.bound in
    let u = o.unsettled in
    let w = window-seven_bytes (ending i) (omega arith) in (omega (arith, w), omega (arith, w))

-- Eight digits at a time.
pub bits_56 : (v : ℕ) → bits 56 v ≡ byte_bits (seven_bytes v)
bits_56 v =
    let step : (k : ℕ) → bits 8 (v / 2 ^ k % 256) ≡ bits 8 (v / 2 ^ k) =
      λ k. bits-mod_256 (v / 2 ^ k) in
    bits-split 8 48 v
    ∙ ap₂ ◌++◌ (sym (step 48)) (
        bits-split 8 40 v
        ∙ ap₂ ◌++◌ (sym (step 40)) (
            bits-split 8 32 v
            ∙ ap₂ ◌++◌ (sym (step 32)) (
                bits-split 8 24 v
                ∙ ap₂ ◌++◌ (sym (step 24)) (
                    bits-split 8 16 v
                    ∙ ap₂ ◌++◌ (sym (step 16)) (
                        bits-split 8 8 v
                        ∙ ap₂ ◌++◌ (sym (step 8)) (
                            sym (append-nil (bits 8 v))
                            ∙ ap (λ b. b ++ []) (sym (bits-mod_256 v))))))))

same_seven : (x y : ℕ) → x % 2 ^ 56 ≡ y % 2 ^ 56 → seven_bytes x ≡ seven_bytes y
same_seven x y e = ap₂ ◌∷◌ (omega (arith, e)) (
    ap₂ ◌∷◌ (omega (arith, e)) (
      ap₂ ◌∷◌ (omega (arith, e)) (
        ap₂ ◌∷◌ (omega (arith, e)) (
          ap₂ ◌∷◌ (omega (arith, e))
            (ap₂ ◌∷◌ (omega (arith, e)) (ap₂ ◌∷◌ (omega (arith, e)) refl))))))

-- What the encoder writes of its `low`, with the eight bits that it keeps on top.
pub bits-ending :
    (top : ℕ) (i : Interval) (low : ℕ)
    → low ≡ top * 2 ^ 56 + i.low
    → i.low < 2 ^ 56
    → bits 56 (bit_or low binary_mask_0_24) ≡ byte_bits (seven_bytes (ending i))
bits-ending top i low e h =
    bits_56 (bit_or low binary_mask_0_24)
    ∙ ap byte_bits
        (same_seven (bit_or low binary_mask_0_24) (ending i) (omega (arith, or_ones 24 low, e)))

seven_bytes-window :
    (a b c d e f g : ℕ) (rest : List ℕ)
    → IsBytes (a ∷ b ∷ c ∷ d ∷ e ∷ f ∷ g ∷ rest)
    → seven_bytes (window (a ∷ b ∷ c ∷ d ∷ e ∷ f ∷ g ∷ rest)) ≡ a ∷ b ∷ c ∷ d ∷ e ∷ f ∷ g ∷ []
unfolding window
seven_bytes-window a b c d e f g rest h = ap₂ ◌∷◌ (omega arith) (
    ap₂ ◌∷◌ (omega arith) (
      ap₂ ◌∷◌ (omega arith) (
        ap₂ ◌∷◌ (omega arith)
          (ap₂ ◌∷◌ (omega arith) (ap₂ ◌∷◌ (omega arith) (ap₂ ◌∷◌ (omega arith) refl))))))

byte_bits-window_seven :
    (l : List ℕ) (s : Seven l) → byte_bits l ≡ bits 56 (window l) ++ byte_bits (drop 7 l)
byte_bits-window_seven l s =
    let first = s.a ∷ s.b ∷ s.c ∷ s.d ∷ s.e ∷ s.f ∷ s.g ∷ [] in
    let whole = first ++ s.rest in
    ap byte_bits s.eq
    ∙ byte_bits-append first s.rest
    ∙ ap (λ b. byte_bits b ++ byte_bits s.rest)
        (sym (seven_bytes-window s.a s.b s.c s.d s.e s.f s.g s.rest s.bytes))
    ∙ ap (λ b. b ++ byte_bits s.rest) (sym (bits_56 (window whole)))
    ∙ ap (λ x. bits 56 (window x) ++ byte_bits (drop 7 x)) (sym s.eq)

-- The decoder takes the window off first, and the rest of the code into its buffer.
pub byte_bits-window :
    (l : List ℕ)
    → IsBytes l
    → 7 ≤ length l
    → byte_bits l ≡ bits 56 (window l) ++ byte_bits (drop 7 l)
byte_bits-window l h k = byte_bits-window_seven l (seven l h k)

pub window_bound : (l : List ℕ) → IsBytes l → 7 ≤ length l → window l < 2 ^ 56
unfolding window
window_bound l h k = let s = seven l h k in let bs = s.bytes in rw s.eq (omega arith)
