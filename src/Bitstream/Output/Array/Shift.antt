-- ===== src/Bitstream/Output/Array/Shift.antt =====
-- Words of a slice shifted in behind the bits of `current`.
use kanzi_go.Base.Bytes.{drop-IsBytes}
use kanzi_go.Base.{
  ℕ, zero, suc, ◌+◌, ◌-◌, ◌*◌, ◌/◌, ◌%◌, ◌^◌, ◌<◌, ◌≤◌, ◌≡◌, refl, sym, ap, ap₂, ◌∙◌, arith, true,
  false, List, [], ◌∷◌, ◌++◌, u64, shl, shr, leb, bit_or, Bool-cases, inl, inr, length, take, drop,
  append_assoc, append-nil, length-append, length-take, length-drop, drop-add, Exec, ok, IsBytes,
}
use kanzi_go.Base.Pow.{two_pow_pos}
use kanzi_go.Base.Masks.{or_fields}
use kanzi_go.Base.Fields.{shl_wrap, bits-mod, bits-fields}
use kanzi_go.Base.Digits.{bits, byte_bits, byte_bits-append, bits-split}
use kanzi_go.Bitstream.Sink.{Sink}
use kanzi_go.Bitstream.Output.{BitOutput, push, uint64_of, bytes_of_64}
use kanzi_go.Bitstream.Output.Push.{IsReady, flushed, Pushed, push_lem, bits-bytes_of_64}
use kanzi_go.Bitstream.Output.Stream.{contents-used}
use kanzi_go.Bitstream.Output.Words.{top_bound}
use kanzi_go.Bitstream.Output.Array.{Cursor, write_words}
use kanzi_go.Bitstream.Output.Array.Progress.{take-drop-append}
use native.Mathlib.Nat.{mod-lt}

-- The first eight bytes.
pub record Word (l : List ℕ) : Type 0 where
  pub val : ℕ
  pub returns : uint64_of l ≡ ok val
  pub bound : val < 2 ^ 64
  pub same_bits : bits 64 val ≡ byte_bits (take 8 l)

pub word_lem : (l : List ℕ) → IsBytes l → 8 ≤ length l → Word l
unfolding uint64_of
word_lem (a ∷ b ∷ c ∷ d ∷ e ∷ f ∷ g ∷ h ∷ rest) i k =
    let val =
      a * 2 ^ 56 + b * 2 ^ 48 + c * 2 ^ 40 + d * 2 ^ 32 + e * 2 ^ 24 + f * 2 ^ 16 + g * 2 ^ 8 + h in
    let same : bytes_of_64 val ≡ a ∷ b ∷ c ∷ d ∷ e ∷ f ∷ g ∷ h ∷ [] = ap₂ ◌∷◌ (omega arith) (
      ap₂ ◌∷◌ (omega arith) (
        ap₂ ◌∷◌ (omega arith) (
          ap₂ ◌∷◌ (omega arith) (
            ap₂ ◌∷◌ (omega arith)
              (ap₂ ◌∷◌ (omega arith) (ap₂ ◌∷◌ (omega arith) (ap₂ ◌∷◌ (omega arith) refl))))))) in
    record {
      val = val;
      returns = refl;
      bound = omega arith;
      same_bits = bits-bytes_of_64 val ∙ ap byte_bits same;
    }
word_lem [] i k = absurd (omega arith)
word_lem (a ∷ []) i k = absurd (omega arith)
word_lem (a ∷ b ∷ []) i k = absurd (omega arith)
word_lem (a ∷ b ∷ c ∷ []) i k = absurd (omega arith)
word_lem (a ∷ b ∷ c ∷ d ∷ []) i k = absurd (omega arith)
word_lem (a ∷ b ∷ c ∷ d ∷ e ∷ []) i k = absurd (omega arith)
word_lem (a ∷ b ∷ c ∷ d ∷ e ∷ f ∷ []) i k = absurd (omega arith)
word_lem (a ∷ b ∷ c ∷ d ∷ e ∷ f ∷ g ∷ []) i k = absurd (omega arith)

pub high_bound : (a val : ℕ) → a ≤ 64 → val < 2 ^ 64 → val / 2 ^ (64 - a) < 2 ^ a
high_bound a val h b =
    let e : 64 ≡ a + (64 - a) = omega arith in
    let p = ap (λ n. 2 ^ n) e in top_bound val a (64 - a) (omega arith)

-- The word that is pushed, and what is left of the value.
pub word_in :
    (q a val : ℕ)
    → a ≤ 64
    → val < 2 ^ 64
    → bit_or (q * 2 ^ a) (shr val (64 - a)) ≡ q * 2 ^ a + val / 2 ^ (64 - a)
word_in q a val h b = or_fields a q (val / 2 ^ (64 - a)) (high_bound a val h b)

pub rest_out : (a val : ℕ) → a ≤ 64 → u64 (shl val a) ≡ val % 2 ^ (64 - a) * 2 ^ a
rest_out a val h =
    let e : 64 ≡ (64 - a) + a = omega arith in
    ap (λ n. val * 2 ^ a % 2 ^ n) e ∙ shl_wrap val (64 - a) a

pub bits-shift :
    (q a val : ℕ)
    → a ≤ 64
    → val < 2 ^ 64
    → bits 64 (q * 2 ^ a + val / 2 ^ (64 - a)) ++ bits (64 - a) (val % 2 ^ (64 - a))
      ≡ bits (64 - a) q ++ bits 64 val
bits-shift q a val h b =
    let r = 64 - a in
    let e : 64 ≡ r + a = omega arith in
    let f : 64 ≡ a + r = omega arith in
    ap₂ ◌++◌
      (ap (λ n. bits n (q * 2 ^ a + val / 2 ^ r)) e
        ∙ bits-fields r a q (val / 2 ^ r) (high_bound a val h b))
      (bits-mod r val)
    ∙ append_assoc (bits r q) (bits a (val / 2 ^ r)) (bits r val)
    ∙ ap (λ x. bits r q ++ x) (sym (bits-split a r val) ∙ ap (λ n. bits n val) (sym f))

module _ (os : Sink) where
  -- `64 - a` bits of `current` are in use, whatever `availBits` is.
  pub record Pending (a : ℕ) (t : BitOutput os) : Type 0 where
    pub ready : IsReady os t
    pub used : ℕ
    pub current_eq : t.current ≡ used * 2 ^ a
    pub used_bound : used < 2 ^ (64 - a)

  abbrev pub pending_bits : ℕ → BitOutput os → List ℕ
  pending_bits a t = flushed os t ++ bits (64 - a) (t.current / 2 ^ a)

  pub record Shifted (a : ℕ) (t t' : BitOutput os) (new : List ℕ) : Type 0 where
    pub pending : Pending a t'
    pub appended : pending_bits a t' ≡ pending_bits a t ++ byte_bits new
    pub counted :
        u64 (t'.written + shl t'.position 3) ≡ u64 (t.written + shl t.position 3 + 8 * length new)

  -- A word went to the buffer, and what is left of the value is in `current`.
  pub shift_step :
      (a val x : ℕ) (t w : BitOutput os) (new : List ℕ) (p : Pending a t)
      → a ≤ 64
      → val < 2 ^ 64
      → Pushed os t w (bytes_of_64 (p.used * 2 ^ a + val / 2 ^ (64 - a)))
      → bits 64 val ≡ byte_bits new
      → length new ≡ 8
      → Shifted a t (record w { avail_bits = x; current = u64 (shl val a) }) new
  shift_step a val x t w new p h b q e l =
      let r = 64 - a in
      let word = p.used * 2 ^ a + val / 2 ^ r in
      let u : BitOutput os = record w { avail_bits = x; current = u64 (shl val a) } in
      let n = q.counted in
      record {
        pending = record {
          ready = record {
            is_open = q.ready.is_open;
            room = q.ready.room;
            aligned = q.ready.aligned;
            sized = q.ready.sized;
            whole = q.ready.whole;
            sink_open = q.ready.sink_open;
          };
          used = val % 2 ^ r;
          current_eq = rest_out a val h;
          used_bound = mod-lt val (two_pow_pos r);
        };
        appended =
            contents-used os u r (val % 2 ^ r) a (rest_out a val h)
            ∙ ap (λ f. f ++ bits r (val % 2 ^ r)) q.appended
            ∙ append_assoc (flushed os t) (byte_bits (bytes_of_64 word)) (bits r (val % 2 ^ r))
            ∙ ap (λ b. flushed os t ++ (b ++ bits r (val % 2 ^ r))) (sym (bits-bytes_of_64 word))
            ∙ ap (λ b. flushed os t ++ b) (bits-shift p.used a val h b)
            ∙ sym (append_assoc (flushed os t) (bits r p.used) (bits 64 val))
            ∙ ap₂ ◌++◌ (sym (contents-used os t r p.used a p.current_eq)) e;
        counted = omega (arith, n, l);
      }

  pub trans-Shifted :
      (a : ℕ) (t u v : BitOutput os) (xs ys zs : List ℕ)
      → xs ++ ys ≡ zs
      → Shifted a t u xs
      → Shifted a u v ys
      → Shifted a t v zs
  trans-Shifted a t u v xs ys zs e p q =
      let m = p.counted in
      let n = q.counted in
      let l = ap length e in
      record {
        pending = q.pending;
        appended =
            q.appended
            ∙ ap (λ x. x ++ byte_bits ys) p.appended
            ∙ append_assoc (pending_bits a t) (byte_bits xs) (byte_bits ys)
            ∙ ap (λ x. pending_bits a t ++ x) (sym (byte_bits-append xs ys) ∙ ap byte_bits e);
        counted = omega (arith, m, n, length-append xs ys, l);
      }

  pub nothing-Shifted : (a : ℕ) (t : BitOutput os) → Pending a t → Shifted a t t []
  nothing-Shifted a t p = record {
    pending = p;
    appended = sym (append-nil (pending_bits a t));
    counted = omega arith;
  }

  -- A loop over whole words: `k` of the `m` bytes that remain are written.
  pub record Shifting (a : ℕ) (t : BitOutput os) (bits : List ℕ) (m : ℕ) (r : Exec (Cursor os))
      : Type 0 where
    pub after : BitOutput os
    pub k : ℕ
    pub bound : k ≤ m
    pub returns : r ≡ ok (after, drop k bits, 8 * (m - k))
    pub shifted : Shifted a t after (take k bits)

  word_eq :
      (fuel a m val : ℕ) (t t' : BitOutput os) (bits : List ℕ)
      → 8 ≤ m
      → uint64_of bits ≡ ok val
      → push os t (bit_or t.current (shr val (64 - a))) ≡ ok t'
      → write_words os (suc fuel) a t bits (8 * m)
        ≡ write_words os fuel a
            (record t' { avail_bits = 64; current = u64 (shl val a) })
            (drop 8 bits)
            (8 * (m - 8))
  unfolding write_words
  word_eq fuel a m val t t' bits h e f =
      let more : leb 64 (8 * m) ≡ true = ground arith in
      let less : 8 * m - 64 ≡ 8 * (m - 8) = omega arith in
      rw (more, write_words)
        (rw (e, write_words) (rw (f, write_words) (rw (less, write_words) refl)))

  words_stop :
      (fuel a m : ℕ) (t : BitOutput os) (bits : List ℕ)
      → m < 8
      → write_words os (suc fuel) a t bits (8 * m) ≡ ok (t, bits, 8 * m)
  unfolding write_words
  words_stop fuel a m t bits h =
      let done : leb 64 (8 * m) ≡ false = ground arith in rw (done, write_words) refl

  pub write_words_lem :
      (fuel a : ℕ) (t : BitOutput os) (bits : List ℕ) (m : ℕ)
      → Pending a t
      → a ≤ 64
      → IsBytes bits
      → m ≤ length bits
      → m < fuel
      → Shifting a t bits m (write_words os fuel a t bits (8 * m))
  write_words_lem zero a t bits m p h i l f = absurd (omega arith)
  write_words_lem (suc fuel) a t bits m p h i l f = elim (Bool-cases (leb 8 m)) [
    | inr few ↦ record {
      after = t;
      k = 0;
      bound = omega arith;
      returns =
          words_stop fuel a m t bits (ground arith) ∙ ap (λ n. ok (t, bits, 8 * n)) (omega arith);
      shifted = nothing-Shifted a t p;
    }
    | inl many ↦
        let more : 8 ≤ m = ground arith in
        let w = word_lem bits i (omega arith) in
        let (t', e, q) = push_lem os t (bit_or t.current (shr w.val (64 - a))) p.ready in
        let u : BitOutput os = record t' { avail_bits = 64; current = u64 (shl w.val a) } in
        let value =
          ap (λ c. bit_or c (shr w.val (64 - a))) p.current_eq ∙ word_in p.used a w.val h w.bound in
        let s =
          shift_step a w.val 64 t t' (take 8 bits) p h w.bound (with-Pushed t t' _ _ value q)
            w.same_bits (omega (arith, length-take 8 bits)) in
        let r =
          write_words_lem fuel a u (drop 8 bits) (m - 8) s.pending h (drop-IsBytes 8 bits i)
            (omega (arith, length-drop 8 bits)) (omega arith) in
        let bound = r.bound in
        let left : m - 8 - r.k ≡ m - (8 + r.k) = omega arith in
        record {
          after = r.after;
          k = 8 + r.k;
          bound = omega arith;
          returns =
              word_eq fuel a m w.val t t' bits more w.returns e
              ∙ r.returns
              ∙ ap₂ (λ x n. ok (r.after, x, 8 * n)) (sym (drop-add 8 r.k bits)) left;
          shifted = trans-Shifted a t u r.after _ _ _ (take-drop-append 8 r.k bits) s r.shifted;
        }
  ]
    where
      with-Pushed :
          (t t' : BitOutput os) (x y : ℕ)
          → x ≡ y
          → Pushed os t t' (bytes_of_64 x)
          → Pushed os t t' (bytes_of_64 y)
      with-Pushed t t' x y e p = rw (← e) p
