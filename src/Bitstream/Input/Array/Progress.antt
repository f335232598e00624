-- ===== src/Bitstream/Input/Array/Progress.antt =====
-- Whole bytes are taken off the bits that are still to be read.
use kanzi_go.Base.{
  ℕ, zero, suc, ◌+◌, ◌-◌, ◌*◌, ◌<◌, ◌≤◌, ◌≡◌, ◌⊎◌, inl, inr, refl, sym, ap, ap₂, ◌∙◌, arith, Bool,
  true, false, not, ◌&&◌, List, [], ◌∷◌, ◌++◌, u8, u64, leb, if◌then◌else◌, Bool-cases, length,
  append_assoc, append-nil, length-append, Exec, ok, IsBytes, ◌>>=◌,
}
use kanzi_go.Base.Bytes.{append-IsBytes}
use kanzi_go.Base.Digits.{bits, byte_bits, byte_bits-append}
use kanzi_go.Bitstream.Source.{Source}
use kanzi_go.Bitstream.Output.Array.Aligned.{length-byte_bits}
use kanzi_go.Bitstream.Input.{BitInput, read_bits, bits_consumed}
use kanzi_go.Bitstream.Input.Window.{IsValid, remaining}
use kanzi_go.Bitstream.Input.Read.{Took, take_bits_lem}
use kanzi_go.Bitstream.Input.Array.{Cursor, read_bytes}
use native.Mathlib.Nat.{mod-eq_of_lt}

module _ (is : Source) where
  pub record TookBytes (t t' : BitInput is) (xs : List ℕ) : Type 0 where
    pub valid : IsValid is t'
    pub bytes : IsBytes xs
    pub taken : remaining is t ≡ byte_bits xs ++ remaining is t'
    pub counted : bits_consumed is t' ≡ u64 (bits_consumed is t + 8 * length xs)

  pub nothing-TookBytes : (t : BitInput is) → IsValid is t → TookBytes t t []
  nothing-TookBytes t v = record { valid = v; bytes = tt; taken = refl; counted = omega arith }

  pub trans-TookBytes :
      (t u v : BitInput is) (xs ys : List ℕ)
      → TookBytes t u xs
      → TookBytes u v ys
      → TookBytes t v (xs ++ ys)
  trans-TookBytes t u v xs ys p q =
      let m = p.counted in
      let n = q.counted in
      record {
        valid = q.valid;
        bytes = append-IsBytes xs ys p.bytes q.bytes;
        taken =
            p.taken
            ∙ ap (λ r. byte_bits xs ++ r) q.taken
            ∙ sym (append_assoc (byte_bits xs) (byte_bits ys) (remaining is v))
            ∙ ap (λ r. r ++ remaining is v) (sym (byte_bits-append xs ys));
        counted = omega (arith, m, n, length-append xs ys);
      }

  -- What is left is as long as it was, less the bytes.
  pub length-TookBytes :
      (t t' : BitInput is) (xs : List ℕ)
      → TookBytes t t' xs
      → length (remaining is t) ≡ 8 * length xs + length (remaining is t')
  length-TookBytes t t' xs p =
      let e = ap length p.taken in
      omega (arith, e, length-append (byte_bits xs) (remaining is t'), length-byte_bits xs)

  -- Of the `m` bytes that are wanted, `xs` are read.
  pub record Progress (t : BitInput is) (done : List ℕ) (m : ℕ) (r : Exec (Cursor is))
      : Type 0 where
    pub after : BitInput is
    pub xs : List ℕ
    pub bound : length xs ≤ m
    pub returns : r ≡ ok (after, done ++ xs, 8 * (m - length xs))
    pub took : TookBytes t after xs

  unfoldable pub no_progress :
      (t : BitInput is) (done : List ℕ) (m : ℕ) (r : Exec (Cursor is))
      → IsValid is t
      → r ≡ ok (t, done, 8 * m)
      → Progress t done m r
  no_progress t done m r v e = record {
    after = t;
    xs = [];
    bound = omega arith;
    returns = e ∙ ap₂ (λ d n. ok (t, d, 8 * n)) (sym (append-nil done)) (omega arith);
    took = nothing-TookBytes t v;
  }

  -- First `xs`, then what the rest of the loop reads.
  unfoldable pub more_progress :
      (t u : BitInput is) (done xs : List ℕ) (m n : ℕ) (r r' : Exec (Cursor is))
      → TookBytes t u xs
      → m ≡ length xs + n
      → r ≡ r'
      → Progress u (done ++ xs) n r'
      → Progress t done m r
  more_progress t u done xs m n r r' k e f p =
      let bound = p.bound in
      let total = length-append xs p.xs in
      let left : n - length p.xs ≡ m - length (xs ++ p.xs) = omega (arith, total, e) in
      record {
        after = p.after;
        xs = xs ++ p.xs;
        bound = omega (arith, total, e);
        returns =
            f ∙ p.returns ∙ ap₂ (λ d n. ok (p.after, d, 8 * n)) (append_assoc done xs p.xs) left;
        took = trans-TookBytes t u p.after xs p.xs k p.took;
      }

  byte_step :
      (fuel : ℕ) (until : BitInput is → Bool) (t t' : BitInput is) (done : List ℕ) (m v : ℕ)
      → until t ≡ false
      → v < 256
      → read_bits is t 8 ≡ ok (v, t')
      → read_bytes is (suc fuel) until t done (8 * suc m)
        ≡ read_bytes is fuel until t' (done ++ (v ∷ [])) (8 * m)
  unfolding read_bytes
  byte_step fuel until t t' done m v u b e =
      let more : leb 8 (8 * suc m) ≡ true = ground arith in
      let less : 8 * suc m - 8 ≡ 8 * m = omega arith in
      let byte : u8 v ≡ v = mod-eq_of_lt b in
      let next =
        λ (x n : ℕ) (t'' : BitInput is). read_bytes is fuel until t'' (done ++ (x ∷ [])) n in
      ap₂
        (λ x y.
          if not x && y
          then (read_bits is t 8 >>= λ (w, t''). next (u8 w) (8 * suc m - 8) t'')
          else ok (t, done, 8 * suc m))
        u more
      ∙ ap (λ r. r >>= λ (w, t''). next (u8 w) (8 * suc m - 8) t'') e
      ∙ ap₂ (λ x n. next x n t') byte less

  stops : (b : Bool) (m : ℕ) → (b ≡ true) ⊎ (m ≡ 0) → (not b && leb 8 (8 * m)) ≡ false
  stops b m (inl e) = rw e refl
  stops true m (inr e) = refl
  stops false m (inr e) = rw e refl

  byte_stop :
      (fuel : ℕ) (until : BitInput is → Bool) (t : BitInput is) (done : List ℕ) (m : ℕ)
      → (until t ≡ true) ⊎ (m ≡ 0)
      → read_bytes is (suc fuel) until t done (8 * m) ≡ ok (t, done, 8 * m)
  unfolding read_bytes
  byte_stop fuel until t done m h = rw (stops (until t) m h, read_bytes) refl

  one_byte : (t t' : BitInput is) (v : ℕ) → Took is t t' 8 v → TookBytes t t' (v ∷ [])
  one_byte t t' v k = record {
    valid = k.valid;
    bytes = (k.bound, tt);
    taken = k.taken ∙ ap (λ b. b ++ remaining is t') (sym (append-nil (bits 8 v)));
    counted = k.counted;
  }

  -- The loop goes on to the end, or until its test holds.
  pub read_bytes_lem :
      (fuel : ℕ) (until : BitInput is → Bool) (t : BitInput is) (done : List ℕ) (m : ℕ)
      → IsValid is t
      → 8 * m ≤ length (remaining is t)
      → m < fuel
      → (p : Progress t done m (read_bytes is fuel until t done (8 * m))) × ((until p.after ≡ true)
          ⊎ (length p.xs ≡ m))
  unfolding no_progress more_progress
  read_bytes_lem zero until t done m v h f = absurd (omega arith)
  read_bytes_lem (suc fuel) until t done zero v h f =
      (no_progress t done 0 _ v (byte_stop fuel until t done 0 (inr refl)), inr refl)
  read_bytes_lem (suc fuel) until t done (suc m) v h f = elim (Bool-cases (until t)) [
    | inl e ↦ (no_progress t done (suc m) _ v (byte_stop fuel until t done (suc m) (inl e)), inl e)
    | inr e ↦
        let (b, t', r, k) = take_bits_lem is t 8 v (omega arith) (omega arith) (omega arith) in
        let w = one_byte t t' b k in
        let (p, d) =
          read_bytes_lem fuel until t' (done ++ (b ∷ [])) m k.valid
            (omega (arith, length-TookBytes t t' (b ∷ []) w)) (omega arith) in
        (
          more_progress t t' done (b ∷ []) (suc m) m _ _ w (omega arith)
              (byte_step fuel until t t' done m b e k.bound r) p,
          one_more d,
        )
  ]
    where
      one_more : {A : Type 0} {k m : ℕ} → A ⊎ (k ≡ m) → A ⊎ (suc k ≡ suc m)
      one_more (inl a) = inl a
      one_more (inr e) = inr (ap suc e)
