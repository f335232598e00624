-- ===== src/Bitstream/Input/Ending.antt =====
-- The end of the source: a read of more than is left panics.
use kanzi_go.Base.{
  if_cong, ℕ, zero, suc, ◌+◌, ◌-◌, ◌*◌, ◌<◌, ◌≤◌, ◌≡◌, ◌≢◌, ◌⊎◌, inl, inr, refl, ap, ◌∙◌, arith,
  true, false, List, [], ◌∷◌, ltb, leb, ◌==◌, ◌||◌, Bool-cases, length, drop, length-append,
  length-take, length-drop, ok, panic,
}
use kanzi_go.Base.Digits.{bits, byte_bits, length-bits}
use kanzi_go.Bitstream.Source.{Source}
use kanzi_go.Bitstream.Input.{
  BitInput, after_read, read_from_source, pull, read_more_bits, read_bits,
}
use kanzi_go.Bitstream.Input.Window.{IsValid, in_buffer, rest_bytes, remaining}
use kanzi_go.Bitstream.Input.Read.{take_bits_lem}
use kanzi_go.Bitstream.Input.Refill.{pull_lem}

pub none_or_some : (xs : List ℕ) → (xs ≡ []) ⊎ (xs ≢ [])
none_or_some [] = inl refl
none_or_some (x ∷ xs) = inr (λ e. by_length (ap length e))
  where
    by_length : suc (length xs) ≡ 0 → ⊥
    by_length e = absurd (omega arith)

module _ (is : Source) where
  -- The stream after a read of nothing.
  abbrev pub exhausted : BitInput is → is.State → BitInput is
  exhausted t s = record t {
    bits_read = (after_read is t (true, [], s)).1.bits_read;
    position = 0;
    source = s;
    limit = 0;
  }

  pub end_of_source :
      (t : BitInput is)
      → IsValid is t
      → is.pending t.source ≡ []
      → (t' : BitInput is) × (read_from_source is t ≡ (true, t'))
        × (t'.avail_bits ≡ t.avail_bits)
        × (t'.current ≡ t.current)
        × (rest_bytes is t' ≡ [])
  unfolding read_from_source after_read
  end_of_source t v e =
      let sized = v.sized in
      let (s, r, o, p) = is.end_law t.source (length t.buffer) v.source_open (omega arith) e in
      let some_room : (length t.buffer == 0) ≡ false = ground arith in
      (
        (after_read is t (true, [], s)).1,
        if_cong t.closed false _ _ v.is_open
            ∙ if_cong (length t.buffer == 0) false _ _ some_room
            ∙ ap (after_read is t) r,
        refl,
        refl,
        p,
      )

  -- Nothing is in the buffer, and nothing in the source.
  pub no_bytes_left :
      (t : BitInput is)
      → IsValid is t
      → rest_bytes is t ≡ []
      → (t.position ≡ t.limit) × (is.pending t.source ≡ [])
  no_bytes_left t v e =
      let inside = v.inside in
      let within = v.within in
      let l = length-append (in_buffer is t) (is.pending t.source) in
      let k = length-take (t.limit - t.position) (drop t.position t.buffer) in
      let d = length-drop t.position t.buffer in
      let n = ap length e in
      (omega (arith, l, k, d, n), none (is.pending t.source) (omega (arith, l, n)))
    where
      none : (xs : List ℕ) → length xs ≡ 0 → xs ≡ []
      none [] h = refl
      none (x ∷ xs) h = absurd (omega arith)

  pub pull_panics : (t : BitInput is) → IsValid is t → rest_bytes is t ≡ [] → pull is t ≡ panic
  unfolding pull
  pull_panics t v e =
      let (p, n) = no_bytes_left t v e in
      let (t', r, a, c, n') = end_of_source t v n in
      let used_up : leb t.limit t.position ≡ true = ground arith in
      rw (used_up, pull) (rw (r, pull) refl)

  more_eq :
      (fuel count : ℕ) (t u : BitInput is)
      → count ≤ 64
      → t.avail_bits < count
      → pull is t ≡ ok u
      → read_more_bits is fuel u (count - t.avail_bits) ≡ panic
      → read_more_bits is (suc fuel) t count ≡ panic
  unfolding read_more_bits
  more_eq fuel count t u h b e r =
      let in_range : (count == 0 || ltb 64 count) ≡ false = ground arith in
      let few : leb count t.avail_bits ≡ false = ground arith in
      rw (in_range, read_more_bits)
        (rw (few, read_more_bits) (rw (e, read_more_bits) (rw (r, read_more_bits) refl)))

  none_eq :
      (fuel count : ℕ) (t : BitInput is)
      → count ≤ 64
      → t.avail_bits < count
      → pull is t ≡ panic
      → read_more_bits is (suc fuel) t count ≡ panic
  unfolding read_more_bits
  none_eq fuel count t h b e =
      let in_range : (count == 0 || ltb 64 count) ≡ false = ground arith in
      let few : leb count t.avail_bits ≡ false = ground arith in
      rw (in_range, read_more_bits) (rw (few, read_more_bits) (rw (e, read_more_bits) refl))

  read_more_panics :
      (fuel count : ℕ) (t : BitInput is)
      → IsValid is t
      → count ≤ 64
      → count ≤ t.avail_bits + 8 * fuel
      → length (remaining is t) < count
      → read_more_bits is (suc fuel) t count ≡ panic
  read_more_panics zero count t v h f l = absurd (
      omega (
        arith,
        l,
        length-append (bits t.avail_bits t.current) (byte_bits (rest_bytes is t)),
        length-bits t.avail_bits t.current,
      ))
  read_more_panics (suc fuel) count t v h f l =
      let total = length-append (bits t.avail_bits t.current) (byte_bits (rest_bytes is t)) in
      let held = length-bits t.avail_bits t.current in
      elim (none_or_some (rest_bytes is t)) [
        | inl e ↦
            let none = ap (λ x. length (byte_bits x)) e in
            elim (Bool-cases (leb count t.avail_bits)) [
              | inl enough ↦
                  absurd
                    (let k : count ≤ t.avail_bits = ground arith in omega (arith, total, held, k))
              | inr few ↦ none_eq (suc fuel) count t h (ground arith) (pull_panics t v e)
            ]
        | inr some ↦
            let (u, r, p) = pull_lem is t v some in
            let s = p.some_bits in
            let behind : length (byte_bits (rest_bytes is t)) ≡ length (remaining is u) =
              ap length p.taken in
            elim (Bool-cases (leb count t.avail_bits)) [
              | inl enough ↦
                  absurd
                    (let k : count ≤ t.avail_bits = ground arith in omega (arith, total, held, k))
              | inr few ↦
                  let k : t.avail_bits < count = ground arith in
                  more_eq (suc fuel) count t u h k r (
                    read_more_panics fuel (count - t.avail_bits) u p.valid (omega arith)
                      (omega arith) (omega (arith, total, held, behind)))
            ]
      ]

  -- `ReadBits` of 1 to 64 bits on a valid stream panics if fewer are still to be read.
  pub read_bits_panics :
      (t : BitInput is) (count : ℕ)
      → IsValid is t
      → count ≤ 64
      → length (remaining is t) < count
      → read_bits is t count ≡ panic
  unfolding read_bits
  read_bits_panics t count v h l = read_more_panics 8 count t v h (omega arith) l

  out_of_range :
      (t : BitInput is) (count : ℕ)
      → (count == 0 || ltb 64 count) ≡ true
      → read_bits is t count ≡ panic
  unfolding read_bits read_more_bits
  out_of_range t count e = if_cong (count == 0 || ltb 64 count) true _ _ e

  -- `ReadBits` of a valid stream comes to an end for every count: for 1 to 64 bits that are still to be read it
  -- returns a value and takes as many bits off, and in all other cases it panics.
  pub read_bits_total :
      (t : BitInput is) (count : ℕ)
      → IsValid is t
      → ((0 < count)
          × (count ≤ 64)
          × (count ≤ length (remaining is t))
          × ((v : ℕ) × (t' : BitInput is) × (read_bits is t count ≡ ok (v, t'))
              × (length (remaining is t) ≡ count + length (remaining is t'))))
        ⊎ (((count ≡ 0) ⊎ ((64 < count) ⊎ (length (remaining is t) < count)))
            × (read_bits is t count ≡ panic))
  read_bits_total t count v = elim (Bool-cases (count == 0 || ltb 64 count)) [
    | inl out ↦ inr (which out, out_of_range t count out)
    | inr within ↦
        let p : 0 < count = ground arith in
        let h : count ≤ 64 = ground arith in
        elim (Bool-cases (leb count (length (remaining is t)))) [
          | inr few ↦
              let l : length (remaining is t) < count = ground arith in
              inr (inr (inr l), read_bits_panics t count v h l)
          | inl enough ↦
              let l : count ≤ length (remaining is t) = ground arith in
              let (w, t', r, k) = take_bits_lem is t count v p h l in
              inl (
                p,
                h,
                l,
                (
                  w,
                  t',
                  r,
                  omega (
                    arith,
                    ap length k.taken,
                    length-append (bits count w) (remaining is t'),
                    length-bits count w,
                  ),
                ),
              )
        ]
  ]
    where
      which :
          (count == 0 || ltb 64 count) ≡ true
          → (count ≡ 0) ⊎ ((64 < count) ⊎ (length (remaining is t) < count))
      which e = elim (Bool-cases (count == 0)) [
        | inl z ↦ inl (ground arith)
        | inr z ↦ inr (inl (ground arith))
      ]
