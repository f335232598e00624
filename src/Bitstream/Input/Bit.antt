-- ===== src/Bitstream/Input/Bit.antt =====
-- `ReadBit`.
use kanzi_go.Base.{
  if_cong, ℕ, ◌+◌, ◌-◌, ◌*◌, ◌/◌, ◌%◌, ◌^◌, ◌≤◌, ◌≡◌, inl, inr, sym, ap, ◌∙◌, arith, true, false,
  shr, ◌==◌, if◌then◌else◌, Bool-cases, length, ok,
}
use kanzi_go.Base.Masks.{and_mask}
use kanzi_go.Bitstream.Source.{Source}
use kanzi_go.Bitstream.Input.{BitInput, pull, read_bit}
use kanzi_go.Bitstream.Input.Window.{IsValid, remaining}
use kanzi_go.Bitstream.Input.Refill.{pull_lem}
use kanzi_go.Bitstream.Input.Read.{Took, keep_lem, append_lem, more_is_there}

module _ (is : Source) where
  bit_eq :
      (t u : BitInput is)
      → (if t.avail_bits == 0 then pull is t else ok t) ≡ ok u
      → read_bit is t
        ≡ ok
            (u.current / 2 ^ (u.avail_bits - 1) % 2 ^ 1, record u { avail_bits = u.avail_bits - 1 })
  unfolding read_bit
  bit_eq t u e = rw e (
      ap (λ v. let u' : BitInput is = record u { avail_bits = u.avail_bits - 1 } in ok (v, u'))
        (and_mask 1 (shr u.current (u.avail_bits - 1))))

  -- No bit was in `current`.
  from_zero :
      (t t' : BitInput is) (count low : ℕ)
      → t.avail_bits ≡ 0
      → Took is t t' count (t.current % 2 ^ t.avail_bits * 2 ^ (count - t.avail_bits) + low)
      → Took is t t' count low
  from_zero t t' count low e k = rw (← value) k
    where
      nothing : (p : ℕ) → t.current % 2 ^ 0 * p + low ≡ low
      nothing p =
          let z : t.current % 2 ^ 0 ≡ 0 = omega arith in ap (λ x. x * p + low) z ∙ omega arith

      value : t.current % 2 ^ t.avail_bits * 2 ^ (count - t.avail_bits) + low ≡ low
      value =
          ap (λ a. t.current % 2 ^ a * 2 ^ (count - t.avail_bits) + low) e
          ∙ nothing (2 ^ (count - t.avail_bits))

  -- While a bit is still to be read, `ReadBit` returns it, takes it off, and keeps the stream valid.
  pub take_bit_lem :
      (t : BitInput is)
      → IsValid is t
      → 1 ≤ length (remaining is t)
      → (v : ℕ) × (t' : BitInput is) × (read_bit is t ≡ ok (v, t')) × Took is t t' 1 v
  take_bit_lem t v l = elim (Bool-cases (t.avail_bits == 0)) [
    | inr some_left ↦ (
      t.current / 2 ^ (t.avail_bits - 1) % 2 ^ 1,
      record t { avail_bits = t.avail_bits - 1 },
      bit_eq t t (unused some_left),
      keep_lem is t 1 v (ground arith),
    )
    | inl none_left ↦
        let e : t.avail_bits ≡ 0 = ground arith in
        let (u, r, p) = pull_lem is t v (more_is_there is t 1 (omega arith) l) in
        let s = p.some_bits in
        let one : 1 - t.avail_bits ≡ 1 = omega arith in
        let w = keep_lem is u 1 p.valid (omega arith) in
        let low = u.current / 2 ^ (u.avail_bits - 1) % 2 ^ 1 in
        (
          low,
          record u { avail_bits = u.avail_bits - 1 },
          bit_eq t u (used none_left r),
          from_zero t (record u { avail_bits = u.avail_bits - 1 }) 1 low e
              (append_lem is t u (record u { avail_bits = u.avail_bits - 1 }) 1 low v (omega arith)
                (omega arith) p (ap_count u _ 1 (1 - t.avail_bits) low (sym one) w)),
        )
  ]
    where
      unused : (t.avail_bits == 0) ≡ false → (if t.avail_bits == 0 then pull is t else ok t) ≡ ok t
      unused e = if_cong (t.avail_bits == 0) false (pull is t) (ok t) e

      used :
          {u : BitInput is}
          → (t.avail_bits == 0) ≡ true
          → pull is t ≡ ok u
          → (if t.avail_bits == 0 then pull is t else ok t) ≡ ok u
      used e r = if_cong (t.avail_bits == 0) true (pull is t) (ok t) e ∙ r

      ap_count :
          (u u' : BitInput is) (m n low : ℕ) → m ≡ n → Took is u u' m low → Took is u u' n low
      ap_count u u' m n low e k = rw (← e) k
