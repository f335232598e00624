-- ===== src/Bitstream/Output/Bit.antt =====
-- `WriteBit` appends a bit.
use kanzi_go.Base.{
  ℕ, ◌-◌, ◌%◌, ◌^◌, ◌<◌, ◌≤◌, ◌≡◌, refl, ap, ap₂, ◌∙◌, arith, true, false, [], ◌∷◌, u64, shl, leb,
  bit_or, bit_and, Bool-cases, inl, inr, ok,
}
use kanzi_go.Base.Masks.{and_mask}
use kanzi_go.Bitstream.Sink.{Sink}
use kanzi_go.Bitstream.Output.{BitOutput, push, write_bit}
use kanzi_go.Bitstream.Output.Push.{push_lem}
use kanzi_go.Bitstream.Output.Words.{one_more, last_one, bits_one, bit_one}
use kanzi_go.Bitstream.Output.Stream.{IsValid, Extends, keep_lem, push_on, with_bits}

module _ (os : Sink) where
  write_bit_push :
      (t u : BitOutput os) (bit : ℕ)
      → t.avail_bits ≤ 1
      → push os t (bit_or t.current (bit_and bit 1)) ≡ ok u
      → write_bit os t bit ≡ ok (record u { current = 0; avail_bits = 64 })
  unfolding write_bit
  write_bit_push t u bit h e =
      let full : leb t.avail_bits 1 ≡ true = ground arith in rw full (rw e refl)

  write_bit_keep :
      (t : BitOutput os) (bit : ℕ)
      → 1 < t.avail_bits
      → write_bit os t bit
        ≡ ok (record t {
          avail_bits = t.avail_bits - 1;
          current = bit_or t.current (u64 (shl (bit_and bit 1) (t.avail_bits - 1)));
        })
  unfolding write_bit
  write_bit_keep t bit h = let room : leb t.avail_bits 1 ≡ false = ground arith in rw room refl

  -- On a valid stream `WriteBit` returns, appends the lowest bit of its argument, keeps the stream valid, and
  -- adds one to `Written`.
  pub write_bit_lem :
      (t : BitOutput os) (bit : ℕ)
      → IsValid os t
      → (t' : BitOutput os) × (write_bit os t bit ≡ ok t') × Extends os t t' (bit % 2 ∷ [])
  write_bit_lem t bit v =
      let a = t.avail_bits in
      let high = v.avail_bound in
      let low = v.avail_pos in
      let b = bit % 2 in
      let digit : bit_and bit 1 ≡ b = and_mask 1 bit in
      elim (Bool-cases (leb a 1)) [
        | inr room ↦
            let more : 1 < a = ground arith in
            let current_eq =
              ap₂ (λ x y. bit_or x (u64 (shl y (a - 1)))) v.current_eq digit
              ∙ one_more v.used a b more high (omega arith) in
            (
              record t {
                avail_bits = a - 1;
                current = bit_or t.current (u64 (shl (bit_and bit 1) (a - 1)));
              },
              write_bit_keep t bit more,
              with_bits os t _ _ _ (bit_one b (omega arith)) (
                  keep_lem os t v (bit_or t.current (u64 (shl (bit_and bit 1) (a - 1)))) b 1 (a - 1)
                    (omega arith) (omega arith) (omega arith) current_eq),
            )
        | inl full ↦
            let one : a ≡ 1 = ground arith in
            let (u, e, q) = push_lem os t (bit_or t.current (bit_and bit 1)) v.ready in
            let value_eq = ap₂ bit_or v.current_eq digit ∙ last_one v.used a b one (omega arith) in
            (
              record u { current = 0; avail_bits = 64 },
              write_bit_push t u bit (omega arith) e,
              with_bits os t _ _ _ (bits_one a b one (omega arith)) (
                  push_on os t u v (bit_or t.current (bit_and bit 1)) b 0 0 0 q value_eq
                    (let p = ap (λ n. 2 ^ n) one in omega arith) (omega arith) (omega arith)
                    (omega arith)),
            )
      ]
