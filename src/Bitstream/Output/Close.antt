-- ===== src/Bitstream/Output/Close.antt =====
-- `Close`: what is left goes to the sink, and nothing can be written any more.
use kanzi_go.Base.{
  if_cong, ℕ, ◌+◌, ◌-◌, ◌*◌, ◌%◌, ◌/◌, ◌^◌, ◌<◌, ◌≤◌, ◌≡◌, refl, sym, ap, ap₂, ◌∙◌, arith, true,
  false, ◌++◌, u64, sub64, shl, ltb, leb, bit_or, bit_and, Bool-cases, inl, inr, length, take,
  replicate, append_assoc, append-nil, ok, panic,
}
use kanzi_go.Base.Digits.{bits, byte_bits, byte_bits-append}
use kanzi_go.Bitstream.Sink.{Sink}
use kanzi_go.Bitstream.Output.{
  BitOutput, flush, store_current, close, bits_written, write_bit, write_bits, joined, push,
  put_uint64, flush_if_full,
}
use kanzi_go.Bitstream.Output.Push.{flushed, flush_lem}
use kanzi_go.Bitstream.Output.Stream.{IsValid, contents}
use kanzi_go.Bitstream.Output.Rest.{store_lem, bytes_of_current}

module _ (os : Sink) where
  -- Nothing is held back: the end of `Close`, once the bytes of `current` are in the buffer.
  record Flushed (t t' : BitOutput os) : Type 0 where
    received_eq : byte_bits (os.received t'.sink) ≡ flushed os t
    counted : u64 (t'.written + shl t'.position 3) ≡ u64 (t.written + shl t.position 3)
    position_eq : t'.position ≡ 0

  flush_nothing :
      (t : BitOutput os) → t.closed ≡ false → t.position ≡ 0 → flush os t ≡ ok (false, t)
  unfolding flush
  flush_nothing t c e =
      let none_left : ltb 0 t.position ≡ false = ground arith in rw (c, none_left) refl

  flush_all_lem :
      (t : BitOutput os)
      → t.closed ≡ false
      → os.IsOpen t.sink
      → t.position ≤ length t.buffer
      → 1024 ≤ length t.buffer
      → length t.buffer % 8 ≡ 0
      → (t' : BitOutput os) × (flush os t ≡ ok (false, t')) × Flushed t t'
  flush_all_lem t c o h k w = elim (Bool-cases (ltb 0 t.position)) [
    | inl some_left ↦
        let (t', e, q, z, r) = flush_lem os t c o (ground arith) h k w in
        let n = q.counted in
        (
          t',
          e,
          record {
            received_eq =
                ap byte_bits r ∙ byte_bits-append (os.received t.sink) (take t.position t.buffer);
            counted = omega (arith, n);
            position_eq = z;
          },
        )
    | inr none_left ↦
        let e : t.position ≡ 0 = ground arith in
        (
          t,
          flush_nothing t c e,
          record {
            received_eq =
                sym (append-nil (byte_bits (os.received t.sink)))
                ∙ ap (λ k. byte_bits (os.received t.sink) ++ byte_bits (take k t.buffer)) (sym e);
            counted = refl;
            position_eq = e;
          },
        )
  ]

  -- Nothing can be written on a stream that `Close` has left like this.
  record IsSealed (t : BitOutput os) : Type 0 where
    closed_eq : t.closed ≡ true
    avail_eq : t.avail_bits ≡ 0
    position_eq : t.position ≡ 0
    buffer_eq : t.buffer ≡ replicate 8 0

  push_panics : (t : BitOutput os) (val : ℕ) → IsSealed t → push os t val ≡ panic
  unfolding push put_uint64 flush_if_full flush
  push_panics t val s = rw (s.buffer_eq, s.position_eq, s.closed_eq) refl

  write_bit_panics : (t : BitOutput os) (bit : ℕ) → IsSealed t → write_bit os t bit ≡ panic
  unfolding write_bit
  write_bit_panics t bit s =
      let a = s.avail_eq in
      let full : leb t.avail_bits 1 ≡ true = ground arith in
      rw full (rw (push_panics t (bit_or t.current (bit_and bit 1)) s) refl)

  write_bits_panics :
      (t : BitOutput os) (value count : ℕ) → IsSealed t → write_bits os t value count ≡ panic
  unfolding write_bits
  write_bits_panics t value count s =
      let a = s.avail_eq in
      let full : leb t.avail_bits count ≡ true = ground arith in
      elim (Bool-cases (ltb 64 count)) [
        | inl large ↦ rw large refl
        | inr small ↦ rw (small, full) (rw (push_panics t (joined os t value count) s) refl)
      ]

  close_eq :
      (t u v : BitOutput os)
      → t.closed ≡ false
      → store_current os 8 56 t ≡ ok u
      → flush os (record u { written = sub64 u.written (sub64 u.avail_bits 64); avail_bits = 64 })
        ≡ ok (false, v)
      → close os t
        ≡ ok (
          false,
          record v {
            closed = true;
            position = 0;
            avail_bits = 0;
            written = sub64 v.written 64;
            buffer = replicate 8 0;
          },
        )
  unfolding close
  close_eq t u v c e f = if_cong t.closed false _ _ c ∙ rw e (rw f refl)

  closed_counts :
      (w w' v p q a n pad : ℕ)
      → w' ≡ w
      → a ≤ 64
      → a + 8 * n ≡ 64 + pad
      → u64 (v + shl q 3) ≡ u64 (sub64 w' (sub64 (64 + pad) 64) + shl (p + n) 3)
      → q ≡ 0
      → u64 (sub64 v 64 + shl 0 3 + sub64 64 0) ≡ u64 (w + shl p 3 + sub64 64 a)
  closed_counts w w' v p q a n pad e h f g z = omega arith

  keep-IsOpen : (t u : BitOutput os) → u.sink ≡ t.sink → os.IsOpen t.sink → os.IsOpen u.sink
  keep-IsOpen t u e o = rw e o

  -- On a valid stream whose sink takes what is written `Close` returns without an error: the sink has received
  -- the bits that were written, with fewer than eight zeros behind them, and `Written` still tells their
  -- number. From then on the stream is closed, and `WriteBit` and `WriteBits` panic.
  pub close_lem :
      (t : BitOutput os) (bit value count : ℕ)
      → IsValid os t
      → (t' : BitOutput os) × (pad : ℕ) × (close os t ≡ ok (false, t'))
        × (pad < 8)
        × (byte_bits (os.received t'.sink) ≡ contents os t ++ replicate pad 0)
        × (bits_written os t' ≡ bits_written os t)
        × (t'.closed ≡ true)
        × (write_bit os t' bit ≡ panic)
        × (write_bits os t' value count ≡ panic)
  close_lem t bit value count valid =
      let a = t.avail_bits in
      let low = valid.avail_pos in
      let high = valid.avail_bound in
      let room = valid.ready.room in
      let whole = valid.ready.whole in
      let sized = valid.ready.sized in
      let n = (71 - a) / 8 in
      let pad = a + 8 * n - 64 in
      let (u, e, s) =
        store_lem os 8 56 n t (omega arith) (omega arith) (λ z. refl) (omega arith) (omega arith)
          (omega arith) in
      let p = s.position_eq in
      let l = s.length_eq in
      let r = s.avail_eq in
      let f : BitOutput os = record u {
        written = sub64 u.written (sub64 u.avail_bits 64);
        avail_bits = 64;
      } in
      let (v, g, d) =
        flush_all_lem f (s.closed_eq ∙ valid.ready.is_open)
          (keep-IsOpen t u s.sink_eq valid.ready.sink_open) (omega (arith, p, l)) (omega (arith, l))
          (omega (arith, l, whole)) in
      let t' : BitOutput os = record v {
        closed = true;
        position = 0;
        avail_bits = 0;
        written = sub64 v.written 64;
        buffer = replicate 8 0;
      } in
      let sealed : IsSealed t' = record {
        closed_eq = refl;
        avail_eq = refl;
        position_eq = refl;
        buffer_eq = refl;
      } in
      let counted = d.counted in
      let sum : a + 8 * n ≡ 64 + pad = omega arith in
      (
        t',
        pad,
        close_eq t u v valid.ready.is_open e g,
        omega arith,
        d.received_eq
            ∙ s.appended
            ∙ ap (λ x. flushed os t ++ x)
                (bytes_of_current t.current valid.used a n pad valid.current_eq high (omega arith)
                  sum)
            ∙ sym
                (append_assoc (flushed os t) (bits (64 - a) (t.current / 2 ^ a)) (replicate pad 0)),
        closed_counts t.written u.written v.written t.position v.position a n pad s.written_eq high
            sum (counted ∙ ap₂ (λ x y. u64 (sub64 u.written (sub64 x 64) + shl y 3)) (r ∙ sum) p)
            d.position_eq,
        refl,
        write_bit_panics t' bit sealed,
        write_bits_panics t' value count sealed,
      )
