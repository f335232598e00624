-- ===== src/Bitstream/Input/Read.antt =====
-- `ReadBits` and `ReadBit` take bits off those that are still to be read.
use kanzi_go.Base.{
  ℕ, zero, suc, ◌+◌, ◌-◌, ◌*◌, ◌/◌, ◌%◌, ◌^◌, ◌<◌, ◌≤◌, ◌≡◌, ◌≢◌, inl, inr, sym, ap, ap₂, ◌∙◌,
  arith, true, false, [], ◌++◌, u64, shl, shr, ltb, leb, bit_or, bit_and, ◌||◌, ◌==◌, Bool-cases,
  length, append_assoc, length-append, ok,
}
use kanzi_go.Base.Pow.{two_pow_pos, two_pow_add, two_pow_mono, div_fields}
use kanzi_go.Base.Masks.{or_fields, and_mask}
use kanzi_go.Base.Fields.{bits-fields, bits-mod}
use kanzi_go.Base.Digits.{bits, byte_bits, bits-split, length-bits}
use kanzi_go.Bitstream.Source.{Source}
use kanzi_go.Bitstream.Input.{BitInput, all_ones, pull, read_more_bits, read_bits, bits_consumed}
use kanzi_go.Bitstream.Input.Window.{IsValid, rest_bytes, remaining}
use kanzi_go.Bitstream.Input.Pull.{Pulled}
use kanzi_go.Bitstream.Input.Refill.{pull_lem}
use native.Mathlib.Nat.{mod-lt, mod-eq_of_lt, mul-lt-mul_of_pos_right}

-- The mask of the `c` lowest bits.
ones : (c : ℕ) → c ≤ 64 → shr all_ones (64 - c) ≡ 2 ^ c - 1
ones c h =
    let e : 64 ≡ c + (64 - c) = omega arith in
    let p : 2 ^ 64 ≡ 2 ^ c * 2 ^ (64 - c) = ap (λ n. 2 ^ n) e ∙ two_pow_add c (64 - c) in
    let whole : all_ones ≡ (2 ^ c - 1) * 2 ^ (64 - c) + (2 ^ (64 - c) - 1) =
      product (2 ^ c) (2 ^ (64 - c)) (two_pow_pos c) (two_pow_pos (64 - c)) p in
    ap (λ x. shr x (64 - c)) whole
    ∙ div_fields (2 ^ c - 1) (2 ^ (64 - c) - 1) (2 ^ (64 - c)) (omega (arith, two_pow_pos (64 - c)))
  where
    product : (x y : ℕ) → 0 < x → 0 < y → 2 ^ 64 ≡ x * y → all_ones ≡ (x - 1) * y + (y - 1)
    product zero y h k e = absurd (omega arith)
    product (suc x) y h k e = grind arith

masked : (x c : ℕ) → c ≤ 64 → bit_and x (shr all_ones (64 - c)) ≡ x % 2 ^ c
masked x c h = ap (bit_and x) (ones c h) ∙ and_mask c x

-- The upper part of a result, and the lower one.
pub join_parts :
    (x a c low : ℕ)
    → a + c ≤ 64
    → low < 2 ^ c
    → bit_or (u64 (shl (bit_and x (shr all_ones (64 - a))) c)) low ≡ x % 2 ^ a * 2 ^ c + low
join_parts x a c low h k =
    let small : x % 2 ^ a * 2 ^ c < 2 ^ 64 = omega (
      arith,
      two_pow_add a c,
      two_pow_mono (a + c) 64 h,
      mul-lt-mul_of_pos_right {m = x % 2 ^ a} {n = 2 ^ a} {k = 2 ^ c} (mod-lt x (two_pow_pos a))
          (two_pow_pos c),
    ) in
    ap (λ y. bit_or (u64 (shl y c)) low) (masked x a (omega arith))
    ∙ ap (λ y. bit_or y low) (mod-eq_of_lt small)
    ∙ or_fields c (x % 2 ^ a) low k

module _ (is : Source) where
  -- The value of the next `count` bits is `v`.
  pub record Took (t t' : BitInput is) (count v : ℕ) : Type 0 where
    pub valid : IsValid is t'
    pub taken : remaining is t ≡ bits count v ++ remaining is t'
    pub bound : v < 2 ^ count
    pub counted : bits_consumed is t' ≡ u64 (bits_consumed is t + count)

  pub with_avail :
      (t : BitInput is) (a : ℕ) → IsValid is t → a ≤ 64 → IsValid is (record t { avail_bits = a })
  with_avail t a v h = record {
    is_open = v.is_open;
    inside = v.inside;
    within = v.within;
    sized = v.sized;
    whole = v.whole;
    aligned = v.aligned;
    filled = v.filled;
    bytes = v.bytes;
    source_open = v.source_open;
    avail_bound = h;
  }

  -- Enough bits are in `current`.
  pub keep_lem :
      (t : BitInput is) (count : ℕ)
      → IsValid is t
      → count ≤ t.avail_bits
      → Took t
          (record t { avail_bits = t.avail_bits - count })
          count
          (t.current / 2 ^ (t.avail_bits - count) % 2 ^ count)
  keep_lem t count v h =
      let high = v.avail_bound in
      let a = t.avail_bits in
      let e : a ≡ count + (a - count) = omega arith in
      record {
        valid = with_avail t (a - count) v (omega arith);
        taken =
            ap (λ n. bits n t.current ++ byte_bits (rest_bytes is t)) e
            ∙ ap (λ x. x ++ byte_bits (rest_bytes is t))
                (bits-split count (a - count) t.current
                  ∙ ap (λ x. x ++ bits (a - count) t.current)
                      (sym (bits-mod count (t.current / 2 ^ (a - count)))))
            ∙ append_assoc (bits count (t.current / 2 ^ (a - count) % 2 ^ count))
                (bits (a - count) t.current) (byte_bits (rest_bytes is t));
        bound = mod-lt (t.current / 2 ^ (a - count)) (two_pow_pos count);
        counted = omega arith;
      }

  -- What is in `current` comes first, and the rest after a pull.
  pub append_lem :
      (t u t' : BitInput is) (count low : ℕ)
      → IsValid is t
      → t.avail_bits ≤ count
      → count ≤ 64
      → Pulled is t u
      → Took u t' (count - t.avail_bits) low
      → Took t t' count (t.current % 2 ^ t.avail_bits * 2 ^ (count - t.avail_bits) + low)
  append_lem t u t' count low v h k p q =
      let a = t.avail_bits in
      let c = count - a in
      let x = t.current % 2 ^ a in
      let e : count ≡ a + c = omega arith in
      let m = p.counted in
      let n = q.counted in
      let o = p.valid.avail_bound in
      let b = q.bound in
      record {
        valid = q.valid;
        taken =
            ap₂ ◌++◌ (sym (bits-mod a t.current)) p.taken
            ∙ ap (λ y. bits a x ++ y) q.taken
            ∙ sym (append_assoc (bits a x) (bits c low) (remaining is t'))
            ∙ ap (λ y. y ++ remaining is t')
                (sym (bits-fields a c x low q.bound) ∙ ap (λ n. bits n (x * 2 ^ c + low)) (sym e));
        bound = omega (
          arith,
          ap (λ n. 2 ^ n) e ∙ two_pow_add a c,
          parts_bound x low (2 ^ a) (2 ^ c) (mod-lt t.current (two_pow_pos a)) b,
        );
        counted = omega (arith, m, n);
      }
    where
      parts_bound : (x y m n : ℕ) → x < m → y < n → x * n + y < m * n
      parts_bound x y m n h k = grind arith

  pub more_is_there :
      (t : BitInput is) (count : ℕ)
      → t.avail_bits < count
      → count ≤ length (remaining is t)
      → rest_bytes is t ≢ []
  more_is_there t count h k e =
      let l = ap (λ x. length (bits t.avail_bits t.current ++ byte_bits x)) e in
      absurd (
        omega (
          arith,
          l,
          length-append (bits t.avail_bits t.current) [],
          length-bits t.avail_bits t.current,
        ))

  keep_eq :
      (fuel count : ℕ) (t : BitInput is)
      → 0 < count
      → count ≤ 64
      → count ≤ t.avail_bits
      → read_more_bits is (suc fuel) t count
        ≡ ok (
          t.current / 2 ^ (t.avail_bits - count) % 2 ^ count,
          record t { avail_bits = t.avail_bits - count },
        )
  unfolding read_more_bits
  keep_eq fuel count t p h k =
      let in_range : (count == 0 || ltb 64 count) ≡ false = ground arith in
      let enough : leb count t.avail_bits ≡ true = ground arith in
      rw (in_range, read_more_bits)
        (rw (enough, read_more_bits)
          (ap
            (λ v.
              let t' : BitInput is = record t { avail_bits = t.avail_bits - count } in ok (v, t'))
            (masked (shr t.current (t.avail_bits - count)) count h)))

  append_eq :
      (fuel count low : ℕ) (t u t' : BitInput is)
      → t.avail_bits < count
      → count ≤ 64
      → low < 2 ^ (count - t.avail_bits)
      → pull is t ≡ ok u
      → read_more_bits is fuel u (count - t.avail_bits) ≡ ok (low, t')
      → read_more_bits is (suc fuel) t count
        ≡ ok (t.current % 2 ^ t.avail_bits * 2 ^ (count - t.avail_bits) + low, t')
  unfolding read_more_bits
  append_eq fuel count low t u t' p h b e r =
      let in_range : (count == 0 || ltb 64 count) ≡ false = ground arith in
      let few : leb count t.avail_bits ≡ false = ground arith in
      rw (in_range, read_more_bits)
        (rw (few, read_more_bits)
          (rw (e, read_more_bits)
            (rw (r, read_more_bits)
              (ap (λ v. ok (v, t'))
                (join_parts t.current t.avail_bits (count - t.avail_bits) low (omega arith) b)))))

  enough_lem :
      (fuel count : ℕ) (t : BitInput is)
      → IsValid is t
      → 0 < count
      → count ≤ 64
      → count ≤ t.avail_bits
      → (v : ℕ) × (t' : BitInput is) × (read_more_bits is (suc fuel) t count ≡ ok (v, t'))
        × Took t t' count v
  enough_lem fuel count t v p h k = (
    t.current / 2 ^ (t.avail_bits - count) % 2 ^ count,
    record t { avail_bits = t.avail_bits - count },
    keep_eq fuel count t p h k,
    keep_lem t count v k,
  )

  read_more_bits_lem :
      (fuel count : ℕ) (t : BitInput is)
      → IsValid is t
      → 0 < count
      → count ≤ 64
      → count ≤ t.avail_bits + 8 * fuel
      → count ≤ length (remaining is t)
      → (v : ℕ) × (t' : BitInput is) × (read_more_bits is (suc fuel) t count ≡ ok (v, t'))
        × Took t t' count v
  read_more_bits_lem zero count t v p h f l = enough_lem zero count t v p h (omega arith)
  read_more_bits_lem (suc fuel) count t v p h f l = elim (Bool-cases (leb count t.avail_bits)) [
    | inl enough ↦ enough_lem (suc fuel) count t v p h (ground arith)
    | inr few ↦
        let k : t.avail_bits < count = ground arith in
        let (u, e, q) = pull_lem is t v (more_is_there t count k l) in
        let s = q.some_bits in
        let total : length (byte_bits (rest_bytes is t)) ≡ length (remaining is u) =
          ap length q.taken in
        let (low, t', r, w) =
          read_more_bits_lem fuel (count - t.avail_bits) u q.valid (omega arith) (omega arith)
            (omega arith)
            (omega (
              arith,
              total,
              length-append (bits t.avail_bits t.current) (byte_bits (rest_bytes is t)),
              length-bits t.avail_bits t.current,
            )) in
        (
          t.current % 2 ^ t.avail_bits * 2 ^ (count - t.avail_bits) + low,
          t',
          append_eq (suc fuel) count low t u t' k h w.bound e r,
          append_lem t u t' count low v (omega arith) h q w,
        )
  ]

  -- For 1 to 64 bits that are still to be read, `ReadBits` returns their value, takes them off, and keeps the
  -- stream valid.
  pub take_bits_lem :
      (t : BitInput is) (count : ℕ)
      → IsValid is t
      → 0 < count
      → count ≤ 64
      → count ≤ length (remaining is t)
      → (v : ℕ) × (t' : BitInput is) × (read_bits is t count ≡ ok (v, t')) × Took t t' count v
  unfolding read_bits
  take_bits_lem t count v p h l = read_more_bits_lem 8 count t v p h (omega arith) l
