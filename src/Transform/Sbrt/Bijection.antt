-- ===== src/Transform/Sbrt/Bijection.antt =====
-- The two arrays of ranks stay inverse to each other.
use kanzi_go.Base.{
  ℕ, zero, suc, ◌<◌, ◌≡◌, ◌≢◌, refl, sym, ap, ◌∙◌, arith, leb, ◌==◌, Bool-cases, inl, inr, ◌⊎◌,
}
use kanzi_go.Base.Arrays.{update, update_self, update_other}
use kanzi_go.Transform.Sbrt.{Ranks, move_up, settle, move_symbol}

-- The arrays are inverse to each other but for the symbol `c` and the rank `r`, which are free.
pub record Free (c r : ℕ) (a : Ranks) : Type 0 where
  pub symbols : (x : ℕ) → x ≢ c → (a.r2s (a.s2r x) ≡ x) × (a.s2r x ≢ r)
  pub ranks : (j : ℕ) → j ≢ r → (a.s2r (a.r2s j) ≡ j) × (a.r2s j ≢ c)

pub record Inverses (a : Ranks) : Type 0 where
  pub symbol : (x : ℕ) → a.r2s (a.s2r x) ≡ x
  pub rank : (j : ℕ) → a.s2r (a.r2s j) ≡ j
  -- A byte has a byte's rank.
  pub bounded : (x : ℕ) → x < 256 → a.s2r x < 256

eq-cases : (m n : ℕ) → (m ≡ n) ⊎ (m ≢ n)
eq-cases m n = elim (Bool-cases (m == n)) [
  | inl e ↦ inl (ground arith)
  | inr e ↦ inr (ground arith)
]

-- One round of the inner loop: the symbol at the rank above moves to the free rank.
abbrev pub shifted : ℕ → Ranks → Ranks
shifted r a = record { s2r = update a.s2r (a.r2s r) (suc r); r2s = update a.r2s (suc r) (a.r2s r) }

shifted-symbols :
    (c r : ℕ) (a : Ranks)
    → Free c (suc r) a
    → (x : ℕ) → x ≢ c
    → ((shifted r a).r2s ((shifted r a).s2r x) ≡ x) × ((shifted r a).s2r x ≢ r)
shifted-symbols c r a f x h =
    let t = f.ranks r (omega arith) in
    elim (eq-cases x (a.r2s r)) [
      | inl e ↦
          let moved : update a.s2r (a.r2s r) (suc r) x ≡ suc r =
            ap (update a.s2r (a.r2s r) (suc r)) e ∙ update_self a.s2r (a.r2s r) (suc r) in
          (
            ap (update a.r2s (suc r) (a.r2s r)) moved ∙ update_self a.r2s (suc r) (a.r2s r) ∙ sym e,
            omega (arith, moved),
          )
      | inr ne ↦
          let (back, free) = f.symbols x h in
          let kept = update_other a.s2r (a.r2s r) (suc r) x ne in
          (
            ap (update a.r2s (suc r) (a.r2s r)) kept
                ∙ update_other a.r2s (suc r) (a.r2s r) (a.s2r x) free
                ∙ back,
            λ e. ne (sym back ∙ ap a.r2s (sym kept ∙ e)),
          )
    ]

shifted-ranks :
    (c r : ℕ) (a : Ranks)
    → Free c (suc r) a
    → (j : ℕ) → j ≢ r
    → ((shifted r a).s2r ((shifted r a).r2s j) ≡ j) × ((shifted r a).r2s j ≢ c)
shifted-ranks c r a f j h =
    let (t, far) = f.ranks r (omega arith) in
    elim (eq-cases j (suc r)) [
      | inl e ↦
          let moved : update a.r2s (suc r) (a.r2s r) j ≡ a.r2s r =
            ap (update a.r2s (suc r) (a.r2s r)) e ∙ update_self a.r2s (suc r) (a.r2s r) in
          (
            ap (update a.s2r (a.r2s r) (suc r)) moved ∙ update_self a.s2r (a.r2s r) (suc r) ∙ sym e,
            λ k. far (sym moved ∙ k),
          )
      | inr ne ↦
          let (back, free) = f.ranks j ne in
          let kept = update_other a.r2s (suc r) (a.r2s r) j ne in
          (
            ap (update a.s2r (a.r2s r) (suc r)) kept
                ∙ update_other a.s2r (a.r2s r) (suc r) (a.r2s j)
                    (λ e. h (sym back ∙ ap a.s2r e ∙ t))
                ∙ back,
            λ e. free (sym kept ∙ e),
          )
    ]

update-bounded : (f : ℕ → ℕ) (k v x : ℕ) → f x < 256 → v < 256 → update f k v x < 256
unfolding update
update-bounded f k v x h p = ground arith

settle-Inverses :
    (c r : ℕ) (a : Ranks)
    → Free c r a
    → r < 256
    → ((x : ℕ) → x < 256 → a.s2r x < 256)
    → Inverses (settle c (r, a))
unfolding settle
settle-Inverses c r a f h b = record {
  symbol = λ x. elim (eq-cases x c) [
    | inl e ↦
        ap (update a.r2s r c) (ap (update a.s2r c r) e ∙ update_self a.s2r c r)
        ∙ update_self a.r2s r c
        ∙ sym e
    | inr ne ↦
        ap (update a.r2s r c) (update_other a.s2r c r x ne)
        ∙ update_other a.r2s r c (a.s2r x) (f.symbols x ne).1
        ∙ (f.symbols x ne).0
  ];
  rank = λ j. elim (eq-cases j r) [
    | inl e ↦
        ap (update a.s2r c r) (ap (update a.r2s r c) e ∙ update_self a.r2s r c)
        ∙ update_self a.s2r c r
        ∙ sym e
    | inr ne ↦
        ap (update a.s2r c r) (update_other a.r2s r c j ne)
        ∙ update_other a.s2r c r (a.r2s j) (f.ranks j ne).1
        ∙ (f.ranks j ne).0
  ];
  bounded = λ x p. update-bounded a.s2r c r x (b x p) h;
}

move_up-Free :
    (q : ℕ → ℕ) (qc c r : ℕ) (a : Ranks)
    → Free c r a
    → r < 256
    → ((x : ℕ) → x < 256 → a.s2r x < 256)
    → Inverses (settle c (move_up q qc r a))
unfolding move_up
move_up-Free q qc c zero a f h b = settle-Inverses c 0 a f h b
move_up-Free q qc c (suc r) a f h b = elim (Bool-cases (leb (q (a.r2s r)) qc)) [
  | inl e ↦
      rw (e, move_up)
        (move_up-Free q qc c r (shifted r a)
          (record { symbols = shifted-symbols c r a f; ranks = shifted-ranks c r a f })
          (omega arith) (λ x p. update-bounded a.s2r (a.r2s r) (suc r) x (b x p) h))
  | inr e ↦ rw (e, move_up) (settle-Inverses c (suc r) a f h b)
]

-- A whole round of `Forward`.
pub move_up-Inverses :
    (q : ℕ → ℕ) (qc c : ℕ) (a : Ranks)
    → c < 256
    → Inverses a
    → Inverses (settle c (move_up q qc (a.s2r c) a))
move_up-Inverses q qc c a h v =
    move_up-Free q qc c (a.s2r c) a
      (record {
        symbols = λ x ne. (v.symbol x, λ e. ne (sym (v.symbol x) ∙ ap a.r2s e ∙ v.symbol c));
        ranks = λ j ne. (v.rank j, λ e. ne (sym (v.rank j) ∙ ap a.s2r e));
      })
      (v.bounded c h) v.bounded

-- The inverse's round changes its array in the same way.
pub move_symbol-move_up :
    (q : ℕ → ℕ) (qc c r : ℕ) (a : Ranks)
    → move_symbol q qc c r a.r2s ≡ (settle c (move_up q qc r a)).r2s
unfolding move_symbol move_up settle
move_symbol-move_up q qc c zero a = refl
move_symbol-move_up q qc c (suc r) a = elim (Bool-cases (leb (q (a.r2s r)) qc)) [
  | inl e ↦ rw (e, move_symbol, move_up) (move_symbol-move_up q qc c r (shifted r a))
  | inr e ↦ rw (e, move_symbol, move_up) refl
]
