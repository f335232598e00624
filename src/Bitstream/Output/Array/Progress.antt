-- ===== src/Bitstream/Output/Array/Progress.antt =====
-- Whole bytes of a slice, some of which are written.
use kanzi_go.Base.{
  take_nil, ℕ, zero, suc, ◌+◌, ◌-◌, ◌*◌, ◌≤◌, ◌≡◌, ◌⊎◌, refl, sym, ap, ap₂, ◌∙◌, arith, Bool, true,
  false, not, ◌&&◌, List, [], ◌∷◌, ◌++◌, leb, Bool-cases, inl, inr, if◌then◌else◌, length, take,
  drop, append_assoc, append-nil, length-append, Exec, ok, ◌>>=◌,
}
use kanzi_go.Base.Digits.{bits, byte_bits}
use kanzi_go.Bitstream.Sink.{Sink}
use kanzi_go.Bitstream.Output.{BitOutput, write_bits}
use kanzi_go.Bitstream.Output.Stream.{IsValid, contents, Extends}
use kanzi_go.Bitstream.Output.Write.{write_bits_lem}
use kanzi_go.Bitstream.Output.Array.{Cursor, write_bytes}

pub take-drop-append : (j k : ℕ) (xs : List ℕ) → take j xs ++ take k (drop j xs) ≡ take (j + k) xs
take-drop-append zero k xs = ap (λ n. take n xs) (omega arith)
take-drop-append (suc j) k [] = take_nil k ∙ sym (take_nil (suc j + k))
take-drop-append (suc j) k (x ∷ xs) =
    let e : suc j + k ≡ suc (j + k) = omega arith in
    ap (λ r. x ∷ r) (take-drop-append j k xs) ∙ ap (λ n. take n (x ∷ xs)) (sym e)

module _ (os : Sink) where
  pub trans-Extends :
      (t u v : BitOutput os) (xs ys : List ℕ)
      → Extends os t u xs
      → Extends os u v ys
      → Extends os t v (xs ++ ys)
  trans-Extends t u v xs ys p q =
      let a = p.counted in
      let b = q.counted in
      record {
        valid = q.valid;
        appended = q.appended ∙ ap (λ x. x ++ ys) p.appended ∙ append_assoc (contents os t) xs ys;
        counted = omega (arith, a, b, length-append xs ys);
      }

  -- `k` of the `m` bytes that remain are written.
  pub record Progress (t : BitOutput os) (bits : List ℕ) (m : ℕ) (r : Exec (Cursor os))
      : Type 0 where
    pub after : BitOutput os
    pub k : ℕ
    pub bound : k ≤ m
    pub returns : r ≡ ok (after, drop k bits, 8 * (m - k))
    pub extends : Extends os t after (byte_bits (take k bits))

  unfoldable pub no_progress :
      (t : BitOutput os) (bits : List ℕ) (m : ℕ) (r : Exec (Cursor os))
      → IsValid os t
      → r ≡ ok (t, bits, 8 * m)
      → Progress t bits m r
  no_progress t bits m r v e = record {
    after = t;
    k = 0;
    bound = omega arith;
    returns = e ∙ ap (λ n. ok (t, bits, 8 * n)) (omega arith);
    extends = record {
      valid = v;
      appended = sym (append-nil (contents os t));
      counted = omega arith;
    };
  }

  write_bytes_step :
      (until : BitOutput os → Bool) (t t' : BitOutput os) (b : ℕ) (bits : List ℕ) (m : ℕ)
      → until t ≡ false
      → write_bits os t b 8 ≡ ok t'
      → write_bytes os until t (b ∷ bits) (8 * suc m) ≡ write_bytes os until t' bits (8 * m)
  unfolding write_bytes
  write_bytes_step until t t' b bits m u e =
      let more : leb 8 (8 * suc m) ≡ true = ground arith in
      let less : 8 * suc m - 8 ≡ 8 * m = omega arith in
      ap₂
        (λ x y.
          if not x && y
          then (write_bits os t b 8 >>= λ t''. write_bytes os until t'' bits (8 * suc m - 8))
          else ok (t, b ∷ bits, 8 * suc m))
        u more
      ∙ ap₂ (λ r n. r >>= λ t''. write_bytes os until t'' bits n) e less

  stops : (b : Bool) (m : ℕ) → (b ≡ true) ⊎ (m ≡ 0) → (not b && leb 8 (8 * m)) ≡ false
  stops b m (inl e) = rw e refl
  stops true m (inr e) = refl
  stops false m (inr e) = rw e refl

  write_bytes_stop :
      (until : BitOutput os → Bool) (t : BitOutput os) (bits : List ℕ) (m : ℕ)
      → (until t ≡ true) ⊎ (m ≡ 0)
      → write_bytes os until t bits (8 * m) ≡ ok (t, bits, 8 * m)
  unfolding write_bytes
  write_bytes_stop until t [] m h = rw (stops (until t) m h, write_bytes) refl
  write_bytes_stop until t (b ∷ bits) m h = rw (stops (until t) m h, write_bytes) refl

  -- The loop goes on to the end, or until its test holds.
  pub write_bytes_lem :
      (until : BitOutput os → Bool) (t : BitOutput os) (bits : List ℕ) (m : ℕ)
      → IsValid os t
      → m ≤ length bits
      → (p : Progress t bits m (write_bytes os until t bits (8 * m))) × ((until p.after ≡ true)
          ⊎ (p.k ≡ m))
  unfolding no_progress
  write_bytes_lem until t bits zero v h =
      (no_progress t bits 0 _ v (write_bytes_stop until t bits 0 (inr refl)), inr refl)
  write_bytes_lem until t [] (suc m) v h = absurd (omega arith)
  write_bytes_lem until t (b ∷ bits) (suc m) v h = elim (Bool-cases (until t)) [
    | inl e ↦ (
      no_progress t (b ∷ bits) (suc m) _ v (write_bytes_stop until t (b ∷ bits) (suc m) (inl e)),
      inl e,
    )
    | inr e ↦
        let (t', r, x) = write_bits_lem os t b 8 v (omega arith) (omega arith) in
        let (p, d) = write_bytes_lem until t' bits m x.valid (omega arith) in
        let bound = p.bound in
        let left : m - p.k ≡ suc m - suc p.k = omega arith in
        (
          record {
            after = p.after;
            k = suc p.k;
            bound = omega arith;
            returns =
                write_bytes_step until t t' b bits m e r
                ∙ p.returns
                ∙ ap (λ n. ok (p.after, drop p.k bits, 8 * n)) left;
            extends = trans-Extends t t' p.after _ _ x p.extends;
          },
          one_more d,
        )
  ]
    where
      one_more : {A : Type 0} {k m : ℕ} → A ⊎ (k ≡ m) → A ⊎ (suc k ≡ suc m)
      one_more (inl a) = inl a
      one_more (inr e) = inr (ap suc e)
