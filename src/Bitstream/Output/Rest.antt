-- ===== src/Bitstream/Output/Rest.antt =====
-- The bytes of `current` that `Close` stores.
use kanzi_go.Base.{
  ℕ, zero, suc, ◌+◌, ◌-◌, ◌*◌, ◌/◌, ◌%◌, ◌^◌, ◌<◌, ◌≤◌, ◌≡◌, refl, sym, ap, ap₂, ◌∙◌, arith, true,
  false, List, [], ◌∷◌, ◌++◌, u8, sub64, shr, ltb, length, take, drop, replicate, append_assoc,
  append-nil, ok,
}
use kanzi_go.Base.Pow.{two_pow_pos, two_pow_add}
use kanzi_go.Base.Fields.{bits-fields, shr-shl_less}
use kanzi_go.Base.Digits.{bits, byte_bits, byte_bits-append, bits-split, bits-mod_256}
use kanzi_go.Bitstream.Sink.{Sink}
use kanzi_go.Bitstream.Output.{BitOutput, store_current}
use kanzi_go.Bitstream.Output.Push.{flushed, take-replaced, length-replaced}
use native.Mathlib.Nat.{mul-div_cancel, div-div-eq-div-mul, div-eq_of_lt}

module _ (os : Sink) where
  no_bits : (v : ℕ) → [] ≡ bits 0 v
  unfolding bits
  no_bits v = refl

  byte_by_byte :
      (c k n shift : ℕ)
      → n ≤ k
      → shift ≡ 8 * k
      → bits 8 (c / 2 ^ shift) ++ bits (8 * n) (c / 2 ^ (8 * k - 8 * n))
        ≡ bits (8 * suc n) (c / 2 ^ (8 * suc k - 8 * suc n))
  byte_by_byte c k n shift h e =
      let m = 8 * k - 8 * n in
      let whole : shift ≡ m + 8 * n = omega arith in
      let high : c / 2 ^ shift ≡ c / 2 ^ m / 2 ^ (8 * n) =
        ap (λ x. c / 2 ^ x) whole
        ∙ ap (λ x. c / x) (two_pow_add m (8 * n))
        ∙ sym (div-div-eq-div-mul c (2 ^ m) (2 ^ (8 * n))) in
      let width : 8 + 8 * n ≡ 8 * suc n = omega arith in
      let same : m ≡ 8 * suc k - 8 * suc n = omega arith in
      ap (λ x. bits 8 x ++ bits (8 * n) (c / 2 ^ m)) high
      ∙ sym (bits-split 8 (8 * n) (c / 2 ^ m))
      ∙ ap₂ (λ w x. bits w (c / 2 ^ x)) width same

  pub record Saved (t t' : BitOutput os) (n : ℕ) (new : List ℕ) : Type 0 where
    pub closed_eq : t'.closed ≡ t.closed
    pub written_eq : t'.written ≡ t.written
    pub position_eq : t'.position ≡ t.position + n
    pub avail_eq : t'.avail_bits ≡ t.avail_bits + 8 * n
    pub sink_eq : t'.sink ≡ t.sink
    pub length_eq : length t'.buffer ≡ length t.buffer
    pub appended : flushed os t' ≡ flushed os t ++ new

  next_byte : BitOutput os → ℕ → BitOutput os
  next_byte t shift = record t {
    buffer =
        take t.position t.buffer ++ (u8 (shr t.current shift) ∷ drop (t.position + 1) t.buffer);
    position = t.position + 1;
    avail_bits = t.avail_bits + 8;
  }

  step_eq :
      (k shift : ℕ) (t t' : BitOutput os)
      → t.avail_bits < 64
      → t.position < length t.buffer
      → store_current os k (sub64 shift 8) (next_byte t shift) ≡ ok t'
      → store_current os (suc k) shift t ≡ ok t'
  unfolding store_current next_byte
  step_eq k shift t t' h l e =
      let more : ltb t.avail_bits 64 ≡ true = ground arith in
      let room : ltb t.position (length t.buffer) ≡ true = ground arith in
      rw (more, room, store_current) e

  stop_eq : (k shift : ℕ) (t : BitOutput os) → 64 ≤ t.avail_bits → store_current os k shift t ≡ ok t
  unfolding store_current
  stop_eq zero shift t h =
      let done : ltb t.avail_bits 64 ≡ false = ground arith in rw (done, store_current) refl
  stop_eq (suc k) shift t h =
      let done : ltb t.avail_bits 64 ≡ false = ground arith in rw (done, store_current) refl

  next_byte-Saved :
      (t : BitOutput os) (shift : ℕ)
      → t.position < length t.buffer
      → Saved t (next_byte t shift) 1 (bits 8 (t.current / 2 ^ shift))
  unfolding next_byte
  next_byte-Saved t shift h =
      let b = u8 (shr t.current shift) ∷ [] in
      let r = byte_bits (os.received t.sink) in
      record {
        closed_eq = refl;
        written_eq = refl;
        position_eq = refl;
        avail_eq = omega arith;
        sink_eq = refl;
        length_eq = length-replaced t.position t.buffer b (omega arith);
        appended =
            ap (λ x. r ++ byte_bits x)
              (take-replaced t.position t.buffer b (drop (t.position + 1) t.buffer) (omega arith))
            ∙ ap (λ x. r ++ x) (byte_bits-append (take t.position t.buffer) b)
            ∙ sym (append_assoc r (byte_bits (take t.position t.buffer)) (byte_bits b))
            ∙ ap (λ x. flushed os t ++ x)
                (append-nil (bits 8 (u8 (shr t.current shift)))
                  ∙ bits-mod_256 (t.current / 2 ^ shift));
      }

  trans_Saved :
      (t u v : BitOutput os) (n : ℕ) (xs ys : List ℕ)
      → Saved t u 1 xs
      → Saved u v n ys
      → Saved t v (suc n) (xs ++ ys)
  trans_Saved t u v n xs ys p q =
      let a = p.position_eq in
      let b = q.position_eq in
      let c = p.avail_eq in
      let d = q.avail_eq in
      record {
        closed_eq = q.closed_eq ∙ p.closed_eq;
        written_eq = q.written_eq ∙ p.written_eq;
        position_eq = omega (arith, a, b);
        avail_eq = omega (arith, c, d);
        sink_eq = q.sink_eq ∙ p.sink_eq;
        length_eq = q.length_eq ∙ p.length_eq;
        appended = q.appended ∙ ap (λ x. x ++ ys) p.appended ∙ append_assoc (flushed os t) xs ys;
      }

  with-Saved :
      (t t' : BitOutput os) (n : ℕ) (xs ys : List ℕ) → xs ≡ ys → Saved t t' n xs → Saved t t' n ys
  with-Saved t t' n xs ys e x = rw (← e) x

  -- With `k` bytes of `current` left, of which `n` are in use.
  pub store_lem :
      (k shift n : ℕ) (t : BitOutput os)
      → n ≤ k
      → k ≤ 8
      → (0 < k → shift + 8 ≡ 8 * k)
      → 64 ≤ t.avail_bits + 8 * n
      → t.avail_bits + 8 * n < 72
      → t.position + n ≤ length t.buffer
      → (t' : BitOutput os) × (store_current os k shift t ≡ ok t')
        × Saved t t' n (bits (8 * n) (t.current / 2 ^ (8 * k - 8 * n)))
  unfolding next_byte
  store_lem k shift zero t a b c d e h = (
    t,
    stop_eq k shift t (omega arith),
    record {
      closed_eq = refl;
      written_eq = refl;
      position_eq = omega arith;
      avail_eq = omega arith;
      sink_eq = refl;
      length_eq = refl;
      appended =
          sym (append-nil (flushed os t))
          ∙ ap (λ x. flushed os t ++ x) (no_bits (t.current / 2 ^ (8 * k - 0)));
    },
  )
  store_lem zero shift (suc n) t a b c d e h = absurd (omega arith)
  store_lem (suc k) shift (suc n) t a b c d e h =
      let u = next_byte t shift in
      let p = next_byte-Saved t shift (omega arith) in
      let l = p.length_eq in
      let (t', r, q) =
        store_lem k (sub64 shift 8) n u (omega arith) (omega arith)
          (λ z. omega (arith, c (omega arith))) (omega arith) (omega arith) (omega (arith, l)) in
      (
        t',
        step_eq k shift t t' (omega arith) (omega arith) r,
        with-Saved t t' (suc n) _ _
            (byte_by_byte t.current k n shift (omega arith) (omega (arith, c (omega arith))))
            (trans_Saved t u t' n _ _ p q),
      )

bits-zero : (k : ℕ) → bits k 0 ≡ replicate k 0
unfolding bits
bits-zero zero = refl
bits-zero (suc k) = ap₂ ◌∷◌ (ap (λ x. x % 2) (div-eq_of_lt (two_pow_pos k))) (bits-zero k)

-- The bytes of `current` are its bits in use, and zeros.
pub bytes_of_current :
    (c used a n pad : ℕ)
    → c ≡ used * 2 ^ a
    → a ≤ 64
    → n ≤ 8
    → a + 8 * n ≡ 64 + pad
    → bits (8 * n) (c / 2 ^ (8 * 8 - 8 * n)) ≡ bits (64 - a) (c / 2 ^ a) ++ replicate pad 0
bytes_of_current c used a n pad e h l w =
    let m = 64 - 8 * n in
    let split : a ≡ pad + m = omega arith in
    let width : 8 * n ≡ (64 - a) + pad = omega arith in
    let value : c / 2 ^ m ≡ used * 2 ^ pad + 0 =
      ap (λ x. x / 2 ^ m) (e ∙ ap (λ x. used * 2 ^ x) split)
      ∙ shr-shl_less used pad m
      ∙ omega arith in
    let back : c / 2 ^ a ≡ used = ap (λ x. x / 2 ^ a) e ∙ mul-div_cancel used (two_pow_pos a) in
    ap₂ bits width value
    ∙ bits-fields (64 - a) pad used 0 (two_pow_pos pad)
    ∙ ap₂ ◌++◌ (ap (bits (64 - a)) (sym back)) (bits-zero pad)
