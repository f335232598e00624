-- ===== src/Bitstream/Input/Pull.antt =====
-- `pull` takes up to eight bytes off those that are still to be read.
use kanzi_go.Base.{
  ℕ, suc, ◌+◌, ◌-◌, ◌*◌, ◌%◌, ◌^◌, ◌<◌, ◌≤◌, ◌≡◌, ◌⊎◌, inl, inr, refl, sym, ap, ap₂, ◌∙◌, arith,
  true, false, [], ◌++◌, u64, shl, ltb, Bool-cases, length, take, drop, length-drop, drop-add,
  append_assoc, ok,
}
use kanzi_go.Base.Bytes.{drop-IsBytes}
use kanzi_go.Base.Digits.{bits, byte_bits, byte_bits-append}
use kanzi_go.Bitstream.Source.{Source}
use kanzi_go.Bitstream.Output.{uint64_of}
use kanzi_go.Bitstream.Output.Array.Progress.{take-drop-append}
use kanzi_go.Bitstream.Output.Array.Shift.{word_lem}
use kanzi_go.Bitstream.Input.{BitInput, gather, take_word}
use kanzi_go.Bitstream.Input.Window.{IsValid, in_buffer, rest_bytes}
use kanzi_go.Bitstream.Input.Gather.{gather_lem}

module _ (is : Source) where
  -- `current` and `availBits` are new; the rest is behind them.
  pub record Pulled (t t' : BitInput is) : Type 0 where
    pub valid : IsValid is t'
    pub taken :
        byte_bits (rest_bytes is t) ≡ bits t'.avail_bits t'.current ++ byte_bits (rest_bytes is t')
    pub some_bits : 8 ≤ t'.avail_bits
    pub current_bound : t'.current < 2 ^ t'.avail_bits
    pub last : (t'.avail_bits ≡ 64) ⊎ (rest_bytes is t' ≡ [])
    pub counted :
        u64 (t'.bits_read + shl t'.position 3)
        ≡ u64 (t.bits_read + shl t.position 3 + t'.avail_bits)

  -- The first `k` bytes before the limit, and those behind.
  split_buffer :
      (t : BitInput is) (k p : ℕ)
      → t.position + k ≡ p
      → p ≤ t.limit
      → in_buffer is t ≡ take k (drop t.position t.buffer) ++ take (t.limit - p) (drop p t.buffer)
  split_buffer t k p e h =
      let n : t.limit - t.position ≡ k + (t.limit - p) = omega arith in
      ap (λ m. take m (drop t.position t.buffer)) n
      ∙ sym (take-drop-append k (t.limit - p) (drop t.position t.buffer))
      ∙ ap (λ x. take k (drop t.position t.buffer) ++ take (t.limit - p) x)
          (sym (drop-add t.position k t.buffer) ∙ ap (λ m. drop m t.buffer) e)

  pub split_bytes :
      (t : BitInput is) (k p : ℕ)
      → t.position + k ≡ p
      → p ≤ t.limit
      → byte_bits (rest_bytes is t)
        ≡ byte_bits (take k (drop t.position t.buffer))
          ++ byte_bits (rest_bytes is (record t { position = p }))
  split_bytes t k p e h =
      let first = take k (drop t.position t.buffer) in
      let rest = take (t.limit - p) (drop p t.buffer) in
      ap (λ x. byte_bits (x ++ is.pending t.source)) (split_buffer t k p e h)
      ∙ ap byte_bits (append_assoc first rest (is.pending t.source))
      ∙ byte_bits-append first (rest ++ is.pending t.source)

  pub moved-IsValid :
      (t : BitInput is) (p c a : ℕ)
      → IsValid is t
      → p ≤ t.limit
      → (p % 8 ≡ 0) ⊎ (p ≡ t.limit)
      → t.position < t.limit
      → a ≤ 64
      → IsValid is (record t { position = p; current = c; avail_bits = a })
  moved-IsValid t p c a v h al k b = record {
    is_open = v.is_open;
    inside = h;
    within = v.within;
    sized = v.sized;
    whole = v.whole;
    aligned = al;
    filled = still_filled v.filled;
    bytes = v.bytes;
    source_open = v.source_open;
    avail_bound = b;
  }
    where
      still_filled :
          (t.position ≡ t.limit) ⊎ ((t.limit ≡ length t.buffer) ⊎ (is.pending t.source ≡ []))
          → (p ≡ t.limit) ⊎ ((t.limit ≡ length t.buffer) ⊎ (is.pending t.source ≡ []))
      still_filled (inl e) = absurd (omega arith)
      still_filled (inr e) = inr e

  word_eq :
      (t : BitInput is) (val : ℕ)
      → t.position + 8 ≤ t.limit
      → uint64_of (drop t.position t.buffer) ≡ ok val
      → take_word is t ≡ ok (record t { position = t.position + 8; current = val; avail_bits = 64 })
  unfolding take_word
  word_eq t val h e =
      let full : ltb t.limit (t.position + 8) ≡ false = ground arith in rw full (rw e refl)

  tail_eq :
      (t : BitInput is) (n val : ℕ)
      → t.position + suc n ≡ t.limit
      → n < 7
      → gather is 8 t 0 (8 * n) ≡ ok (val, record t { position = t.limit })
      → take_word is t ≡ ok (record t { position = t.limit; current = val; avail_bits = 8 * suc n })
  unfolding take_word
  tail_eq t n val e h g =
      let short : ltb t.limit (t.position + 8) ≡ true = ground arith in
      let shift : shl (t.limit - 1 - t.position) 3 ≡ 8 * n = omega arith in
      let width : 8 * n + 8 ≡ 8 * suc n = omega arith in
      rw (short, take_word)
        (rw (shift, take_word)
          (rw (g, take_word)
            (ap
              (λ a.
                let t' : BitInput is = record t {
                  position = t.limit;
                  current = val;
                  avail_bits = a;
                } in
                ok t')
              width)))

  -- Short of eight bytes, nothing is left behind them.
  nothing_behind :
      (t : BitInput is)
      → IsValid is t
      → t.position < t.limit
      → t.limit < t.position + 8
      → is.pending t.source ≡ []
  nothing_behind t v h k = let whole = v.whole in by_cases v.aligned v.filled
    where
      by_cases :
          (t.position % 8 ≡ 0) ⊎ (t.position ≡ t.limit)
          → (t.position ≡ t.limit) ⊎ ((t.limit ≡ length t.buffer) ⊎ (is.pending t.source ≡ []))
          → is.pending t.source ≡ []
      by_cases (inr e) f = absurd (omega arith)
      by_cases a (inl e) = absurd (omega arith)
      by_cases (inl a) (inr (inr e)) = e
      by_cases (inl a) (inr (inl e)) = absurd (let w = v.whole in omega arith)

  pub take_word_lem :
      (t : BitInput is)
      → IsValid is t
      → t.position < t.limit
      → (t' : BitInput is) × (take_word is t ≡ ok t') × Pulled t t'
  take_word_lem t v h =
      let within = v.within in
      let n8 = length-drop t.position t.buffer in
      let l = drop t.position t.buffer in
      let b = drop-IsBytes t.position t.buffer v.bytes in
      elim (Bool-cases (ltb t.limit (t.position + 8))) [
        | inr full ↦
            let room : t.position + 8 ≤ t.limit = ground arith in
            let w = word_lem l b (omega (arith, n8)) in
            (
              record t { position = t.position + 8; current = w.val; avail_bits = 64 },
              word_eq t w.val room w.returns,
              record {
                valid =
                    moved-IsValid t (t.position + 8) w.val 64 v room
                      (next_aligned t.position t.limit h v.aligned) h (omega arith);
                taken =
                    split_bytes t 8 (t.position + 8) refl room
                    ∙ ap
                        (λ x.
                          x ++ byte_bits (rest_bytes is (record t { position = t.position + 8 })))
                        (sym w.same_bits);
                some_bits = omega arith;
                current_bound = w.bound;
                last = inl refl;
                counted = omega arith;
              },
            )
        | inl short ↦
            let few : t.limit < t.position + 8 = ground arith in
            let n = t.limit - t.position - 1 in
            let e : t.position + suc n ≡ t.limit = omega arith in
            let none = nothing_behind t v h few in
            let g =
              gather_lem is 8 (8 * n) 0 (suc n) t l refl b e (omega (arith, n8)) (omega arith)
                (omega arith) (λ z. omega arith) in
            let zero_eq : 0 * 2 ^ (8 * suc n) ≡ 0 = omega arith in
            let val_eq : 0 * 2 ^ (8 * suc n) + g.val ≡ g.val = omega arith in
            (
              record t { position = t.limit; current = g.val; avail_bits = 8 * suc n },
              tail_eq t n g.val e (omega arith) (
                  ap (λ x. gather is 8 t x (8 * n)) (sym zero_eq)
                  ∙ g.returns
                  ∙ ap (λ x. ok (x, record t { position = t.limit })) val_eq),
              record {
                valid =
                    moved-IsValid t t.limit g.val (8 * suc n) v (omega arith) (inr refl) h
                      (omega arith);
                taken =
                    split_bytes t (suc n) t.limit e (omega arith)
                    ∙ ap (λ x. x ++ byte_bits (rest_bytes is (record t { position = t.limit })))
                        (sym g.same_bits);
                some_bits = omega arith;
                current_bound = g.bound;
                last = inr (used_up t none);
                counted = omega (arith, e);
              },
            )
      ]
    where
      next_aligned : (p q : ℕ) → p < q → (p % 8 ≡ 0) ⊎ (p ≡ q) → ((p + 8) % 8 ≡ 0) ⊎ (p + 8 ≡ q)
      next_aligned p q h (inl e) = inl (omega arith)
      next_aligned p q h (inr e) = absurd (omega arith)

      used_up :
          (t : BitInput is)
          → is.pending t.source ≡ []
          → take (t.limit - t.limit) (drop t.limit t.buffer) ++ is.pending t.source ≡ []
      used_up t e =
          let z : t.limit - t.limit ≡ 0 = omega arith in
          ap₂ (λ n x. take n (drop t.limit t.buffer) ++ x) z e
