-- ===== src/Bitstream/Input/Gather.antt =====
-- Fewer than eight bytes are put together.
use kanzi_go.Base.{
  ℕ, zero, suc, ◌+◌, ◌*◌, ◌^◌, ◌<◌, ◌≤◌, ◌≡◌, refl, ap, ap₂, ◌∙◌, arith, true, false, List, [], ◌∷◌,
  ◌++◌, u64, sub64, shl, ltb, bit_or, bit_and, length, take, drop, drop-add, Exec, ok, IsBytes,
}
use kanzi_go.Base.Pow.{two_pow_pos, two_pow_add, two_pow_mono}
use kanzi_go.Base.Masks.{or_fields, and_mask}
use kanzi_go.Base.Fields.{bits-fields}
use kanzi_go.Base.Digits.{bits, byte_bits}
use kanzi_go.Bitstream.Source.{Source}
use kanzi_go.Bitstream.Input.{BitInput, gather}
use native.Mathlib.Nat.{mod-eq_of_lt, mul-lt-mul_of_pos_right}

-- One byte more at the lower end of the number that is put together.
add_byte :
    (q b m : ℕ)
    → b < 256
    → m ≤ 7
    → bit_or (q * 2 ^ (8 + 8 * m)) (u64 (shl (bit_and b 0xFF) (8 * m)))
      ≡ (q * 256 + b) * 2 ^ (8 * m)
add_byte q b m h k =
    let p = two_pow_add 8 (8 * m) in
    let byte : bit_and b 0xFF ≡ b = and_mask 8 b ∙ mod-eq_of_lt h in
    let small : b * 2 ^ (8 * m) < 2 ^ (8 + 8 * m) = omega (
      arith,
      p,
      mul-lt-mul_of_pos_right {m = b} {n = 256} {k = 2 ^ (8 * m)} h (two_pow_pos (8 * m)),
    ) in
    let wrap : u64 (shl b (8 * m)) ≡ b * 2 ^ (8 * m) =
      mod-eq_of_lt (omega (arith, small, two_pow_mono (8 + 8 * m) 64 (omega arith))) in
    ap (bit_or (q * 2 ^ (8 + 8 * m))) (ap (λ x. u64 (shl x (8 * m))) byte ∙ wrap)
    ∙ or_fields (8 + 8 * m) q (b * 2 ^ (8 * m)) small
    ∙ ap (λ x. q * x + b * 2 ^ (8 * m)) p
    ∙ omega arith

module _ (is : Source) where
  pub record Gathered (t : BitInput is) (q n : ℕ) (l : List ℕ) (r : Exec (ℕ × BitInput is))
      : Type 0 where
    pub val : ℕ
    pub returns : r ≡ ok (q * 2 ^ (8 * n) + val, record t { position = t.limit })
    pub bound : val < 2 ^ (8 * n)
    pub same_bits : bits (8 * n) val ≡ byte_bits (take n l)

  stop_eq :
      (fuel val shift : ℕ) (t : BitInput is)
      → t.position ≡ t.limit
      → gather is fuel t val shift ≡ ok (val, t)
  unfolding gather
  stop_eq zero val shift t e =
      let done : ltb t.position t.limit ≡ false = ground arith in rw (done, gather) refl
  stop_eq (suc fuel) val shift t e =
      let done : ltb t.position t.limit ≡ false = ground arith in rw (done, gather) refl

  at_limit : (t : BitInput is) → t.position ≡ t.limit → t ≡ record t { position = t.limit }
  at_limit t e = ap (λ p. let t' : BitInput is = record t { position = p } in t') e

  step_eq :
      (fuel val shift b : ℕ) (t : BitInput is) (rest : List ℕ)
      → t.position < t.limit
      → drop t.position t.buffer ≡ b ∷ rest
      → gather is (suc fuel) t val shift
        ≡ gather is fuel
            (record t { position = t.position + 1 })
            (bit_or val (u64 (shl (bit_and b 0xFF) shift)))
            (sub64 shift 8)
  unfolding gather
  step_eq fuel val shift b t rest h e =
      let more : ltb t.position t.limit ≡ true = ground arith in
      rw (more, gather) (rw (e, gather) refl)

  no_bits : bits 0 0 ≡ []
  unfolding bits
  no_bits = refl

  -- `l` is the rest of the buffer, of which `n` bytes are before the limit.
  pub gather_lem :
      (fuel shift q n : ℕ) (t : BitInput is) (l : List ℕ)
      → drop t.position t.buffer ≡ l
      → IsBytes l
      → t.position + n ≡ t.limit
      → n ≤ length l
      → n ≤ fuel
      → n ≤ 8
      → (0 < n → shift + 8 ≡ 8 * n)
      → Gathered t q n l (gather is fuel t (q * 2 ^ (8 * n)) shift)
  gather_lem fuel shift q zero t l e i d h k w s =
      let here : t.position ≡ t.limit = omega arith in
      record {
        val = 0;
        returns =
            stop_eq fuel (q * 2 ^ (8 * 0)) shift t here
            ∙ ap₂ (λ x y. ok (x, y)) (omega arith) (at_limit t here);
        bound = omega arith;
        same_bits = no_bits;
      }
  gather_lem zero shift q (suc n) t l e i d h k w s = absurd (omega arith)
  gather_lem (suc fuel) shift q (suc n) t [] e i d h k w s = absurd (omega arith)
  gather_lem (suc fuel) shift q (suc n) t (b ∷ l) e i d h k w s =
      let place : shift ≡ 8 * n = let x = s (omega arith) in omega arith in
      let width : 8 * suc n ≡ 8 + 8 * n = omega arith in
      let p : 2 ^ (8 * suc n) ≡ 256 * 2 ^ (8 * n) = ap (λ x. 2 ^ x) width ∙ two_pow_add 8 (8 * n) in
      let val_eq : bit_or (q * 2 ^ (8 * suc n)) (u64 (shl (bit_and b 0xFF) shift))
          ≡ (q * 256 + b) * 2 ^ (8 * n) =
        ap₂ (λ x y. bit_or (q * 2 ^ x) (u64 (shl (bit_and b 0xFF) y))) width place
        ∙ add_byte q b n i.0 (omega arith) in
      let g =
        gather_lem fuel (sub64 shift 8) (q * 256 + b) n (record t { position = t.position + 1 }) l
          (drop-add t.position 1 t.buffer ∙ ap (drop 1) e) i.1 (omega arith) (omega arith)
          (omega arith) (omega arith) (λ z. omega (arith, place)) in
      let bound = g.bound in
      record {
        val = b * 2 ^ (8 * n) + g.val;
        returns =
            step_eq fuel (q * 2 ^ (8 * suc n)) shift b t l (omega arith) e
            ∙ ap (λ v. gather is fuel (record t { position = t.position + 1 }) v (sub64 shift 8))
                val_eq
            ∙ g.returns
            ∙ ap (λ v. ok (v, record t { position = t.limit })) (omega (arith, ap (λ x. q * x) p));
        bound = omega (
          arith,
          bound,
          p,
          mul-lt-mul_of_pos_right {m = b} {n = 256} {k = 2 ^ (8 * n)} i.0 (two_pow_pos (8 * n)),
          byte_room b (2 ^ (8 * n)) i.0,
        );
        same_bits =
            ap (λ x. bits x (b * 2 ^ (8 * n) + g.val)) width
            ∙ bits-fields 8 (8 * n) b g.val bound
            ∙ ap (λ x. bits 8 b ++ x) g.same_bits;
      }
    where
      byte_room : (b p : ℕ) → b < 256 → b * p + p ≤ 256 * p
      byte_room b p h = grind arith
