-- ===== src/Bitstream/Input/More.antt =====
-- `HasMoreToRead`.
use kanzi_go.Base.{
  if_cong, ℕ, ◌+◌, ◌-◌, ◌%◌, ◌≤◌, ◌≡◌, ◌≢◌, ◌⊎◌, inl, inr, refl, sym, ap, ap₂, ◌∙◌, arith, Bool,
  true, false, not, List, [], ◌∷◌, ◌++◌, ltb, ◌==◌, ◌||◌, Bool-cases, length, length-append, take,
  drop, length-take, length-drop, append-nil,
}
use kanzi_go.Base.Digits.{no_bits, bits, byte_bits, length-bits}
use kanzi_go.Bitstream.Source.{Source}
use kanzi_go.Bitstream.Output.Array.Aligned.{length-byte_bits}
use kanzi_go.Bitstream.Input.{BitInput, read_from_source, has_more_to_read}
use kanzi_go.Bitstream.Input.Window.{IsValid, in_buffer, rest_bytes, remaining}
use kanzi_go.Bitstream.Input.Refill.{Refilled, refill_lem, used_up_lem}
use kanzi_go.Bitstream.Input.Ending.{none_or_some, end_of_source}

module _ (is : Source) where
  at_once :
      (t : BitInput is)
      → t.closed ≡ false
      → (ltb (t.position + 1) t.limit || not (t.avail_bits == 0)) ≡ true
      → has_more_to_read is t ≡ ((true, false), t)
  unfolding has_more_to_read
  at_once t c e =
      if_cong t.closed false _ _ c
      ∙ if_cong (ltb (t.position + 1) t.limit || not (t.avail_bits == 0)) true _ _ e

  by_reading :
      (t t' : BitInput is) (err : Bool)
      → t.closed ≡ false
      → t.avail_bits ≡ 0
      → t.limit ≤ t.position + 1
      → read_from_source is t ≡ (err, t')
      → has_more_to_read is t ≡ ((not err, err), t')
  unfolding has_more_to_read
  by_reading t t' err c a h r =
      let e : (ltb (t.position + 1) t.limit || not (t.avail_bits == 0)) ≡ false = ground arith in
      if_cong t.closed false _ _ c
      ∙ if_cong (ltb (t.position + 1) t.limit || not (t.avail_bits == 0)) false _ _ e
      ∙ ap (λ r. let (err, t') = r in ((not err, err), t')) r

  -- What is still to be read is not in `current`.
  in_bytes : (t : BitInput is) → t.avail_bits ≡ 0 → remaining is t ≡ byte_bits (rest_bytes is t)
  in_bytes t a = ap (λ b. b ++ byte_bits (rest_bytes is t)) (no_bits t.avail_bits t.current a)

  from_source :
      (t t' : BitInput is)
      → t.avail_bits ≡ 0
      → Refilled is t t'
      → remaining is t' ≡ byte_bits (is.pending t.source)
  from_source t t' a f = in_bytes t' (f.avail_eq ∙ a) ∙ ap byte_bits f.new_bytes

  positive :
      (t : BitInput is)
      → IsValid is t
      → (ltb (t.position + 1) t.limit || not (t.avail_bits == 0)) ≡ true
      → remaining is t ≢ []
  positive t v e n =
      let within = v.within in
      let l = ap length n in
      let total = length-append (bits t.avail_bits t.current) (byte_bits (rest_bytes is t)) in
      let held = length-bits t.avail_bits t.current in
      let behind = length-byte_bits (rest_bytes is t) in
      let parts = length-append (in_buffer is t) (is.pending t.source) in
      let k = length-take (t.limit - t.position) (drop t.position t.buffer) in
      let d = length-drop t.position t.buffer in
      let a : t.avail_bits ≡ 0 = omega (arith, l, total, held) in
      let p : t.limit ≤ t.position + 1 = omega (arith, l, total, behind, parts, k, d) in
      absurd (ground arith)

  no_more : (xs : List ℕ) → xs ≢ [] → byte_bits xs ≢ []
  no_more [] h e = h refl
  no_more (x ∷ xs) h e =
      let l = ap length e in
      absurd (omega (arith, l, length-append (bits 8 x) (byte_bits xs), length-bits 8 x))

  -- On a valid stream, unless `current` is empty and one byte is left in the buffer, `HasMoreToRead` answers
  -- true exactly when a bit is still to be read, then it keeps the stream valid and what is still to be read;
  -- else it reports an error.
  pub has_more_to_read_lem :
      (t : BitInput is)
      → IsValid is t
      → (t.avail_bits ≡ 0 → t.position + 1 ≢ t.limit)
      → (t' : BitInput is) × (((has_more_to_read is t ≡ ((true, false), t'))
            × (remaining is t ≢ [])
            × IsValid is t'
            × (remaining is t' ≡ remaining is t))
          ⊎ ((has_more_to_read is t ≡ ((false, true), t')) × (remaining is t ≡ [])))
  has_more_to_read_lem t v h =
      let inside = v.inside in
      elim (Bool-cases (ltb (t.position + 1) t.limit || not (t.avail_bits == 0))) [
        | inl now ↦ (t, inl (at_once t v.is_open now, positive t v now, v, refl))
        | inr none ↦
            let a : t.avail_bits ≡ 0 = ground arith in
            let apart = h a in
            let p : t.limit ≤ t.position + 1 = ground arith in
            let used_up : t.position ≡ t.limit = omega (arith, apart) in
            let all = in_bytes t a ∙ ap byte_bits (used_up_lem is t used_up) in
            elim (none_or_some (is.pending t.source)) [
              | inl e ↦
                  let (t', r, b, c, n) = end_of_source is t v e in
                  (t', inr (by_reading t t' true v.is_open a p r, all ∙ ap byte_bits e))
              | inr some ↦
                  let (t', r, f) = refill_lem is t v some in
                  (
                    t',
                    inl (
                      by_reading t t' false v.is_open a p r,
                      (λ e. no_more (is.pending t.source) some (sym all ∙ e)),
                      f.valid,
                      from_source t t' a f ∙ sym all,
                    ),
                  )
            ]
      ]

  -- On a valid stream with `current` empty and one byte left in the buffer, `HasMoreToRead` reports an error
  -- although these eight bits are still to be read, and they are lost.
  pub has_more_to_read-loses_byte :
      (t : BitInput is)
      → IsValid is t
      → t.avail_bits ≡ 0
      → t.position + 1 ≡ t.limit
      → (t' : BitInput is) × (b : ℕ) × (has_more_to_read is t ≡ ((false, true), t'))
        × (remaining is t ≡ bits 8 b)
        × (remaining is t' ≡ [])
  has_more_to_read-loses_byte t v a h =
      let within = v.within in
      let whole = v.whole in
      let one : t.limit - t.position ≡ 1 = omega arith in
      let (b, e) =
        first_byte (drop t.position t.buffer) (omega (arith, length-drop t.position t.buffer)) in
      let last = source_ended v.aligned v.filled in
      let (t', r, c, d, m) = end_of_source is t v last in
      (
        t',
        b,
        by_reading t t' true v.is_open a (omega arith) r,
        in_bytes t a
            ∙ ap (λ n. byte_bits (take n (drop t.position t.buffer) ++ is.pending t.source)) one
            ∙ ap₂ (λ l s. byte_bits (l ++ s)) e last
            ∙ append-nil (bits 8 b),
        in_bytes t' (c ∙ a) ∙ ap byte_bits m,
      )
    where
      first_byte : (l : List ℕ) → 1 ≤ length l → (b : ℕ) × (take 1 l ≡ b ∷ [])
      first_byte [] k = absurd (omega arith)
      first_byte (x ∷ l) k = (x, refl)

      -- A full buffer holds whole words.
      source_ended :
          (t.position % 8 ≡ 0) ⊎ (t.position ≡ t.limit)
          → (t.position ≡ t.limit) ⊎ ((t.limit ≡ length t.buffer) ⊎ (is.pending t.source ≡ []))
          → is.pending t.source ≡ []
      source_ended (inr e) f = absurd (omega arith)
      source_ended (inl e) (inl f) = absurd (omega arith)
      source_ended (inl e) (inr (inl f)) = absurd (let w = v.whole in omega arith)
      source_ended (inl e) (inr (inr f)) = f
