-- ===== src/Bitstream/Input/Array/Shift.antt =====
-- Words made of the bits of `current` and of those that are pulled.
use kanzi_go.Base.{
  ℕ, ◌+◌, ◌-◌, ◌*◌, ◌/◌, ◌%◌, ◌^◌, ◌<◌, ◌≤◌, ◌≡◌, ◌⊎◌, inl, inr, sym, ap, ap₂, ◌∙◌, arith, false,
  [], ◌++◌, u64, shl, shr, ltb, bit_or, length, drop, append_assoc, length-append, ok, IsBytes,
}
use kanzi_go.Base.Masks.{or_fields}
use kanzi_go.Base.Fields.{shl_wrap, bits-mod, bits-fields}
use kanzi_go.Base.Digits.{bits, byte_bits, bits-split, length-bits}
use kanzi_go.Bitstream.Source.{Source}
use kanzi_go.Bitstream.Output.{bytes_of_64}
use kanzi_go.Bitstream.Output.Push.{bits-bytes_of_64}
use kanzi_go.Bitstream.Output.Words.{top_bound}
use kanzi_go.Bitstream.Output.Array.Shift.{Word}
use kanzi_go.Bitstream.Input.{BitInput, pull}
use kanzi_go.Bitstream.Input.Window.{IsValid, rest_bytes, remaining}
use kanzi_go.Bitstream.Input.Pull.{Pulled, moved-IsValid, split_bytes}
use kanzi_go.Bitstream.Input.Refill.{pull_lem}
use kanzi_go.Bitstream.Input.Read.{with_avail, more_is_there}
use kanzi_go.Bitstream.Input.Array.{shift_word}
use kanzi_go.Bitstream.Input.Array.Progress.{TookBytes}

pub bytes_of_64-IsBytes : (v : ℕ) → IsBytes (bytes_of_64 v)
bytes_of_64-IsBytes v = (
  omega arith,
  (
    omega arith,
    (omega arith, (omega arith, (omega arith, (omega arith, (omega arith, (omega arith, tt)))))),
  ),
)

-- `(v<<r)|top`, on the lowest `a` bits of `v`.
pub word_value :
    (v a top : ℕ)
    → a ≤ 64
    → top < 2 ^ (64 - a)
    → bit_or (u64 (shl v (64 - a))) top ≡ v % 2 ^ a * 2 ^ (64 - a) + top
word_value v a top h k =
    let e : 64 ≡ a + (64 - a) = omega arith in
    ap (λ x. bit_or x top) (ap (λ n. v * 2 ^ (64 - a) % 2 ^ n) e ∙ shl_wrap v a (64 - a))
    ∙ or_fields (64 - a) (v % 2 ^ a) top k

-- The bits of that word, when `top` is the upper field of `w`.
pub bits-word :
    (v w a n : ℕ)
    → a ≤ 64
    → 64 - a ≤ n
    → w < 2 ^ n
    → bits a v ++ bits n w
      ≡ bits 64 (v % 2 ^ a * 2 ^ (64 - a) + w / 2 ^ (n - (64 - a))) ++ bits (n - (64 - a)) w
bits-word v w a n h k b =
    let r = 64 - a in
    let e : 64 ≡ a + r = omega arith in
    let f : n ≡ r + (n - r) = omega arith in
    let p = ap (λ m. 2 ^ m) f in
    let top : w / 2 ^ (n - r) < 2 ^ r = top_bound w r (n - r) (omega (arith, p)) in
    ap₂ ◌++◌ (sym (bits-mod a v)) (ap (λ m. bits m w) f ∙ bits-split r (n - r) w)
    ∙ sym (append_assoc (bits a (v % 2 ^ a)) (bits r (w / 2 ^ (n - r))) (bits (n - r) w))
    ∙ ap (λ x. x ++ bits (n - r) w)
        (sym (bits-fields a r (v % 2 ^ a) (w / 2 ^ (n - r)) top)
          ∙ ap (λ m. bits m (v % 2 ^ a * 2 ^ r + w / 2 ^ (n - r))) (sym e))

module _ (is : Source) where
  -- `availBits` is what it was at the start, but for the end of the source.
  pub Steady : ℕ → BitInput is → Type 0
  Steady a t = (t.avail_bits ≡ a) ⊎ (t.avail_bits < 64 × (rest_bytes is t ≡ []))

  pub kept-Steady : (a : ℕ) (t : BitInput is) → t.avail_bits ≡ a → Steady a t
  unfolding Steady
  kept-Steady a t e = inl e

  pub same_avail :
      (a : ℕ) (t : BitInput is) → Steady a t → 64 ≤ length (remaining is t) → t.avail_bits ≡ a
  unfolding Steady
  same_avail a t (inl e) l = e
  same_avail a t (inr (h, e)) l =
      let k = ap (λ x. length (bits t.avail_bits t.current ++ byte_bits x)) e in
      absurd (
        omega (
          arith,
          l,
          k,
          length-append (bits t.avail_bits t.current) [],
          length-bits t.avail_bits t.current,
        ))

  enough_bits :
      (t u : BitInput is)
      → 64 ≤ length (remaining is t)
      → Pulled is t u
      → 64 ≤ t.avail_bits + u.avail_bits
  enough_bits t u l p = by_cases p.last
    where
      by_cases : (u.avail_bits ≡ 64) ⊎ (rest_bytes is u ≡ []) → 64 ≤ t.avail_bits + u.avail_bits
      by_cases (inl e) = omega arith
      by_cases (inr e) =
          let k = ap length p.taken in
          let m = ap (λ x. length (bits u.avail_bits u.current ++ byte_bits x)) e in
          omega (
            arith,
            l,
            k,
            m,
            length-append (bits t.avail_bits t.current) (byte_bits (rest_bytes is t)),
            length-bits t.avail_bits t.current,
            length-append (bits u.avail_bits u.current) [],
            length-bits u.avail_bits u.current,
          )

  shift_word_eq :
      (a : ℕ) (t u : BitInput is) (val : ℕ)
      → pull is t ≡ ok u
      → 64 - a ≤ u.avail_bits
      → bit_or (u64 (shl t.current (64 - a))) (shr u.current (u.avail_bits - (64 - a))) ≡ val
      → shift_word is a t ≡ ok (val, record u { avail_bits = u.avail_bits - (64 - a) })
  unfolding shift_word
  shift_word_eq a t u val e h f =
      let enough : ltb u.avail_bits (64 - a) ≡ false = ground arith in
      rw (e, shift_word)
        (rw (enough, shift_word)
          (ap
            (λ x.
              let u' : BitInput is = record u { avail_bits = u.avail_bits - (64 - a) } in
              ok (x, u'))
            f))

  -- A word comes out whole, since 64 bits are still to be read.
  pub shift_word_lem :
      (a : ℕ) (t : BitInput is)
      → IsValid is t
      → a < 64
      → Steady a t
      → 64 ≤ length (remaining is t)
      → (val : ℕ) × (t' : BitInput is) × (shift_word is a t ≡ ok (val, t'))
        × TookBytes is t t' (bytes_of_64 val)
        × Steady a t'
  unfolding Steady
  shift_word_lem a t v h s l =
      let e = same_avail a t s l in
      let (u, r, p) = pull_lem is t v (more_is_there is t 64 (omega arith) l) in
      let enough = enough_bits t u l p in
      let c = p.counted in
      let high = p.valid.avail_bound in
      let n = u.avail_bits in
      let k = n - (64 - a) in
      let f : n ≡ (64 - a) + k = omega arith in
      let low = p.current_bound in
      let top : u.current / 2 ^ k < 2 ^ (64 - a) =
        top_bound u.current (64 - a) k (omega (arith, ap (λ m. 2 ^ m) f)) in
      let val = t.current % 2 ^ a * 2 ^ (64 - a) + u.current / 2 ^ k in
      let t' : BitInput is = record u { avail_bits = k } in
      (
        val,
        t',
        shift_word_eq a t u val r (omega arith)
            (word_value t.current a (u.current / 2 ^ k) (omega arith) top),
        record {
          valid = with_avail is u k p.valid (omega arith);
          bytes = bytes_of_64-IsBytes val;
          taken =
              ap₂ (λ m x. bits m t.current ++ x) e p.taken
              ∙ sym
                  (append_assoc (bits a t.current) (bits n u.current) (byte_bits (rest_bytes is u)))
              ∙ ap (λ x. x ++ byte_bits (rest_bytes is u))
                  (bits-word t.current u.current a n (omega arith) (omega arith) low)
              ∙ append_assoc (bits 64 val) (bits k u.current) (byte_bits (rest_bytes is u))
              ∙ ap (λ x. x ++ remaining is t') (bits-bytes_of_64 val);
          counted = omega (arith, c, e);
        },
        still u.avail_bits high p.last,
      )
    where
      still :
          {A : Type 0} (n : ℕ)
          → n ≤ 64
          → (n ≡ 64) ⊎ A
          → (n - (64 - a) ≡ a) ⊎ ((n - (64 - a) < 64) × A)
      still n k (inl e) = inl (omega arith)
      still n k (inr x) = inr (omega arith, x)

  -- A word of the buffer is the next `current`.
  pub buffer_word_lem :
      (t : BitInput is) (q a : ℕ) (w : Word (drop t.position t.buffer))
      → IsValid is t
      → t.avail_bits ≡ a
      → a < 64
      → t.position + 8 ≡ q
      → q ≤ t.limit
      → TookBytes is t
          (record t { position = q; current = w.val })
          (bytes_of_64 (bit_or (u64 (shl t.current (64 - a))) (shr w.val a)))
  buffer_word_lem t q a w v e h f b =
      let u : BitInput is = record t { position = q; current = w.val } in
      let low = w.bound in
      let k : 64 - (64 - a) ≡ a = omega arith in
      let whole : 64 ≡ (64 - a) + a = omega arith in
      let top : w.val / 2 ^ a < 2 ^ (64 - a) =
        top_bound w.val (64 - a) a (omega (arith, ap (λ m. 2 ^ m) whole)) in
      let val = t.current % 2 ^ a * 2 ^ (64 - a) + w.val / 2 ^ a in
      let value = word_value t.current a (w.val / 2 ^ a) (omega arith) top in
      let bound = v.avail_bound in
      record {
        valid =
            moved-IsValid is t q w.val t.avail_bits v b (next_aligned v.aligned) (omega arith)
              bound;
        bytes = bytes_of_64-IsBytes (bit_or (u64 (shl t.current (64 - a))) (shr w.val a));
        taken =
            ap₂ (λ m x. bits m t.current ++ x) e
              (split_bytes is t 8 q f b
                ∙ ap (λ x. x ++ byte_bits (rest_bytes is u)) (sym w.same_bits))
            ∙ sym (append_assoc (bits a t.current) (bits 64 w.val) (byte_bits (rest_bytes is u)))
            ∙ ap (λ x. x ++ byte_bits (rest_bytes is u))
                (bits-word t.current w.val a 64 (omega arith) (omega arith) low
                  ∙ ap
                      (λ m.
                        bits 64 (t.current % 2 ^ a * 2 ^ (64 - a) + w.val / 2 ^ m) ++ bits m w.val)
                      k)
            ∙ append_assoc (bits 64 val) (bits a w.val) (byte_bits (rest_bytes is u))
            ∙ ap₂ (λ x m. x ++ (bits m w.val ++ byte_bits (rest_bytes is u)))
                (ap (bits 64) (sym value)
                  ∙ bits-bytes_of_64 (bit_or (u64 (shl t.current (64 - a))) (shr w.val a)))
                (sym e);
        counted = omega (arith, f);
      }
    where
      next_aligned : (t.position % 8 ≡ 0) ⊎ (t.position ≡ t.limit) → (q % 8 ≡ 0) ⊎ (q ≡ t.limit)
      next_aligned (inl e) = inl (omega arith)
      next_aligned (inr e) = absurd (omega arith)
