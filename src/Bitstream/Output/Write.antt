-- ===== src/Bitstream/Output/Write.antt =====
-- `WriteBits` appends bits.
use kanzi_go.Base.{
  ℕ, ◌+◌, ◌-◌, ◌*◌, ◌/◌, ◌%◌, ◌^◌, ◌<◌, ◌≤◌, ◌≡◌, refl, ap, ◌∙◌, arith, true, false, u64, shr, shl,
  ltb, leb, bit_or, Bool-cases, inl, inr, ok,
}
use kanzi_go.Base.Pow.{two_pow_pos}
use kanzi_go.Base.Fields.{bits-mod}
use kanzi_go.Base.Digits.{bits}
use kanzi_go.Bitstream.Sink.{Sink}
use kanzi_go.Bitstream.Output.{BitOutput, push, joined, write_bits}
use kanzi_go.Bitstream.Output.Push.{push_lem}
use native.Mathlib.Nat.{mod-lt}
use kanzi_go.Bitstream.Output.Words.{
  at_top, mod-bound, joined_less, top_bound, joined_more, two_words,
}
use kanzi_go.Bitstream.Output.Stream.{IsValid, Extends, keep_lem, push_on, with_bits}

module _ (os : Sink) where
  write_bits_keep :
      (t : BitOutput os) (value count : ℕ)
      → count < t.avail_bits
      → t.avail_bits ≤ 64
      → write_bits os t value count
        ≡ ok (record t { current = joined os t value count; avail_bits = t.avail_bits - count })
  unfolding write_bits
  write_bits_keep t value count h k =
      let small : ltb 64 count ≡ false = ground arith in
      let room : leb t.avail_bits count ≡ false = ground arith in rw (small, room) refl

  write_bits_push :
      (t u : BitOutput os) (value count : ℕ)
      → t.avail_bits ≤ count
      → count ≤ 64
      → push os t (joined os t value count) ≡ ok u
      → write_bits os t value count
        ≡ ok (record u {
          current = u64 (shl value (64 - (count - t.avail_bits)));
          avail_bits = 64 - (count - t.avail_bits);
        })
  unfolding write_bits
  write_bits_push t u value count h k e =
      let small : ltb 64 count ≡ false = ground arith in
      let full : leb t.avail_bits count ≡ true = ground arith in rw (small, full) (rw e refl)

  -- On a valid stream and 1 to 64 bits, `WriteBits` returns, appends the lowest bits of the value, keeps the
  -- stream valid, and adds their number to `Written`.
  pub write_bits_lem :
      (t : BitOutput os) (value count : ℕ)
      → IsValid os t
      → 0 < count
      → count ≤ 64
      → (t' : BitOutput os) × (write_bits os t value count ≡ ok t')
        × Extends os t t' (bits count value)
  write_bits_lem t value count v p h =
      let a = t.avail_bits in
      let high = v.avail_bound in
      let low = v.avail_pos in
      let w = value % 2 ^ count in
      let same : joined os t value count
          ≡ bit_or (v.used * 2 ^ a) (shr (u64 (shl value (64 - count))) (64 - a)) =
        ap (λ x. bit_or x (shr (u64 (shl value (64 - count))) (64 - a))) v.current_eq in
      elim (Bool-cases (leb a count)) [
        | inr room ↦
            let k : a ≡ count + (a - count) = ground arith in
            let less : count < a = ground arith in
            (
              record t { current = joined os t value count; avail_bits = a - count },
              write_bits_keep t value count less high,
              with_bits os t _ _ _ (bits-mod count value) (
                  keep_lem os t v (joined os t value count) w count (a - count) k (omega arith)
                    (mod-lt value (two_pow_pos count))
                    (same ∙ joined_less v.used a count value (a - count) high k)),
            )
        | inl full ↦
            let more : a ≤ count = ground arith in
            let r = count - a in
            let k : count ≡ a + r = omega arith in
            let hi = w / 2 ^ r in
            let (u, e, q) = push_lem os t (joined os t value count) v.ready in
            let value_eq = same ∙ joined_more v.used a count value r h k in
            (
              record u { current = u64 (shl value (64 - r)); avail_bits = 64 - r },
              write_bits_push t u value count more h e,
              with_bits os t _ _ _ (two_words value count a r k) (
                  push_on os t u v (joined os t value count) hi (value % 2 ^ r) r
                    (u64 (shl value (64 - r))) q value_eq
                    (top_bound w a r (mod-bound value count (a + r) k))
                    (mod-lt value (two_pow_pos r)) (omega arith) (at_top value r (omega arith))),
            )
      ]
