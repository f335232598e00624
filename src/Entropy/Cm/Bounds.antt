-- ===== src/Entropy/Cm/Bounds.antt =====
-- The counters and the predictions stay in their ranges.
use kanzi_go.Base.{
  ℕ, ◌+◌, ◌-◌, ◌*◌, ◌^◌, ◌<◌, ◌≤◌, ◌≡◌, ◌⊎◌, inl, inr, refl, ◌∙◌, arith, Bool, true, false, Option,
  bit_and, bit_or, shr, u8, ltb, leb, ◌==◌, if◌then◌else◌, Bool-cases,
}
use kanzi_go.Base.Arrays.{update}
use kanzi_go.Base.Masks.{and_mask, or_fields_high}
use kanzi_go.Entropy.Predictor.{Predictor}
use kanzi_go.Entropy.Cm.{
  CmPredictor, new_cm_predictor, decay, grow, adapt, adapt1, adapt2, with_row, next_context,
  update_predictor, interpolate, mixed, get_prediction, cm_fast_rate, cm_slow_rate, cm_pscale,
}

-- The largest value of a counter: the last one of a row of `counter2` starts above the others.
abbrev pub top2 : ℕ → ℕ
top2 j = if ltb j 16 then 65520 else 65535

abbrev pub IsRow : (ℕ → ℕ) → (ℕ → ℕ) → Type 0
IsRow top row = (j : ℕ) → row j ≤ top j

abbrev pub top1 : ℕ → ℕ
top1 j = 65520

-- The tables have 256 rows of 257 counters, and 512 rows of 17.
pub record IsValid (t : CmPredictor) : Type 0 where
  pub c1_byte : t.c1 < 256
  pub c2_byte : t.c2 < 256
  pub ctx_pos : 0 < t.ctx
  pub ctx_byte : t.ctx < 256
  pub mask : (t.run_mask ≡ 0) ⊎ (t.run_mask ≡ 0x100)
  pub idx_bound : t.idx < 16
  pub rows1 : (i : ℕ) → IsRow top1 (t.counter1 i)
  pub rows2 : (i : ℕ) → IsRow top2 (t.counter2 i)

pub new_cm_predictor-IsValid : (o : Option ℕ) → IsValid (new_cm_predictor o)
unfolding new_cm_predictor
new_cm_predictor-IsValid o = record {
  c1_byte = omega arith;
  c2_byte = omega arith;
  ctx_pos = omega arith;
  ctx_byte = omega arith;
  mask = inl refl;
  idx_bound = omega arith;
  rows1 = λ i j. omega arith;
  rows2 = λ i j. ground arith;
}

-- The shifts that the predictor uses, rounding up.
abbrev RoundsUp : ℕ → Type 0
RoundsUp rate = (d : ℕ) → 0 < d → shr (d + (2 ^ rate - 1)) rate ≤ d

adapt-bound :
    (b : Bool) (rate pc top : ℕ) → RoundsUp rate → 65520 ≤ top → pc ≤ top → adapt b rate pc ≤ top
unfolding decay grow
adapt-bound true rate pc top up h k = omega arith
adapt-bound false rate pc top up h k = elim (Bool-cases (leb (cm_pscale - 16) pc)) [
  | inl e ↦ rw e (omega arith)
  | inr e ↦ rw e (ground (arith, up (65520 - pc)))
]

update-IsRow : (top row : ℕ → ℕ) (k v : ℕ) → IsRow top row → v ≤ top k → IsRow top (update row k v)
unfolding update
update-IsRow top row k v h p j = elim (Bool-cases (j == k)) [
  | inl e ↦ let same : j ≡ k = ground arith in rw e (rw same p)
  | inr e ↦ rw e (h j)
]

adapt1-IsRow : (b : Bool) (c1 : ℕ) (row : ℕ → ℕ) → IsRow top1 row → IsRow top1 (adapt1 b c1 row)
unfolding adapt1
adapt1-IsRow b c1 row h =
    let first =
      update-IsRow top1 row 256 _ h
        (adapt-bound b 2 (row 256) 65520 (λ d p. omega arith) (omega arith) (h 256)) in
    update-IsRow top1 (update row 256 (adapt b cm_fast_rate (row 256))) c1 _ first
      (adapt-bound b 4 _ 65520 (λ d p. omega arith) (omega arith) (first c1))

top2-bound : (j : ℕ) → 65520 ≤ top2 j
top2-bound j = ground arith

adapt2-IsRow : (b : Bool) (i : ℕ) (row : ℕ → ℕ) → IsRow top2 row → IsRow top2 (adapt2 b i row)
unfolding adapt2
adapt2-IsRow b i row h =
    let first =
      update-IsRow top2 row i _ h
        (adapt-bound b 6 (row i) (top2 i) (λ d p. omega arith) (top2-bound i) (h i)) in
    update-IsRow top2 (update row i (adapt b cm_slow_rate (row i))) (i + 1) _ first
      (adapt-bound b 6 _ (top2 (i + 1)) (λ d p. omega arith) (top2-bound (i + 1)) (first (i + 1)))

with_row-IsRow :
    (top : ℕ → ℕ) (table : ℕ → ℕ → ℕ) (i : ℕ) (row : ℕ → ℕ)
    → ((k : ℕ) → IsRow top (table k))
    → IsRow top row
    → (k : ℕ) → IsRow top (with_row table i row k)
unfolding with_row
with_row-IsRow top table i row h r k = elim (Bool-cases (k == i)) [
  | inl e ↦ rw e r
  | inr e ↦ rw e (h k)
]

next_context-IsValid :
    (t : CmPredictor) (ctx : ℕ) → IsValid t → 0 < ctx → ctx < 512 → IsValid (next_context t ctx)
unfolding next_context
next_context-IsValid t ctx v p h = elim (Bool-cases (ltb 255 ctx)) [
  | inl e ↦ rw e (record {
    c1_byte = omega arith;
    c2_byte = v.c1_byte;
    ctx_pos = omega arith;
    ctx_byte = omega arith;
    mask = elim (Bool-cases (u8 ctx == t.c1)) [ inl f ↦ rw f (inr refl) | inr f ↦ rw f (inl refl) ];
    idx_bound = v.idx_bound;
    rows1 = v.rows1;
    rows2 = v.rows2;
  })
  | inr e ↦ rw e (record {
    c1_byte = v.c1_byte;
    c2_byte = v.c2_byte;
    ctx_pos = p;
    ctx_byte = ground arith;
    mask = v.mask;
    idx_bound = v.idx_bound;
    rows1 = v.rows1;
    rows2 = v.rows2;
  })
]

-- On a bit `Update` keeps a predictor valid: every counter stays in its range, and `ctx`, `c1`, `c2` and `idx`
-- stay in range as indexes.
pub update_predictor-IsValid :
    (t : CmPredictor) (bit : ℕ) → IsValid t → bit < 2 → IsValid (update_predictor t bit)
unfolding update_predictor
update_predictor-IsValid t bit v h =
    let c = v.ctx_byte in
    let q = v.ctx_pos in
    let row2 = bit_or t.ctx t.run_mask in
    let b = bit == 0 in
    let changed : IsValid (record t {
      counter1 = with_row t.counter1 t.ctx (adapt1 b t.c1 (t.counter1 t.ctx));
      counter2 = with_row t.counter2 row2 (adapt2 b t.idx (t.counter2 row2));
    }) =
      record {
        c1_byte = v.c1_byte;
        c2_byte = v.c2_byte;
        ctx_pos = q;
        ctx_byte = c;
        mask = v.mask;
        idx_bound = v.idx_bound;
        rows1 =
            with_row-IsRow top1 t.counter1 t.ctx _ v.rows1 (adapt1-IsRow b t.c1 _ (v.rows1 t.ctx));
        rows2 =
            with_row-IsRow top2 t.counter2 row2 _ v.rows2 (adapt2-IsRow b t.idx _ (v.rows2 row2));
      } in
    next_context-IsValid _ (if b then t.ctx + t.ctx else t.ctx + (t.ctx + 1)) changed (ground arith)
      (ground arith)

mixed-bound : (t : CmPredictor) → IsValid t → mixed t ≤ 65520
mixed-bound t v =
    let a = v.rows1 t.ctx 256 in
    let b = v.rows1 t.ctx t.c1 in let c = v.rows1 t.ctx t.c2 in omega arith

row_index : (t : CmPredictor) → IsValid t → bit_or t.ctx t.run_mask < 512
row_index t v = elim v.mask [
  | inl e ↦ rw e (let c = v.ctx_byte in omega (arith, or_fields_high 8 0 t.ctx c))
  | inr e ↦ rw e (let c = v.ctx_byte in omega (arith, or_fields_high 8 1 t.ctx c))
]

weighted : (d m : ℕ) → m ≤ 4095 → d * m ≤ d * 4095
weighted d m h = grind arith

interpolate-bound : (x1 x2 m : ℕ) → m ≤ 4095 → x1 ≤ 65520 → x2 ≤ 65535 → interpolate x1 x2 m ≤ 65534
unfolding interpolate
interpolate-bound x1 x2 m h p q = elim (Bool-cases (leb x1 x2)) [
  | inl e ↦ rw e (ground (arith, weighted (x2 - x1) m h))
  | inr e ↦ rw e (omega arith)
]

-- On a valid predictor `Get` keeps it valid and reads inside its tables. The prediction is in the promised
-- range from 0 to 4095, but for streams of a version below 4, where it may be 4096.
pub get_prediction-IsValid :
    (t : CmPredictor)
    → IsValid t
    → IsValid (get_prediction t).1
      × (bit_or t.ctx t.run_mask < 512)
      × ((get_prediction t).1.idx + 1 < 17)
      × ((get_prediction t).0 ≤ (if t.is_bs_version3 then 4096 else 4095))
unfolding get_prediction
get_prediction-IsValid t v =
    let p = mixed-bound t v in
    let i : shr (mixed t) 12 < 16 = omega arith in
    let row = bit_or t.ctx t.run_mask in
    let x1 = v.rows2 row (shr (mixed t) 12) in
    let x2 = v.rows2 row (shr (mixed t) 12 + 1) in
    let x1' : t.counter2 row (shr (mixed t) 12) ≤ 65520 = ground arith in
    let x2' : t.counter2 row (shr (mixed t) 12 + 1) ≤ 65535 = ground arith in
    (
      record {
        c1_byte = v.c1_byte;
        c2_byte = v.c2_byte;
        ctx_pos = v.ctx_pos;
        ctx_byte = v.ctx_byte;
        mask = v.mask;
        idx_bound = i;
        rows1 = v.rows1;
        rows2 = v.rows2;
      },
      row_index t v,
      omega arith,
      elim (Bool-cases t.is_bs_version3) [
        | inl e ↦
            let m : bit_and (mixed t) 4095 ≤ 4095 = omega (arith, and_mask 12 (mixed t)) in
            rw e (omega (arith, interpolate-bound _ _ _ m x1' x2'))
        | inr e ↦ rw e (omega arith)
      ],
    )

pub version_kept :
    (t : CmPredictor) (bit : ℕ) → (update_predictor t bit).is_bs_version3 ≡ t.is_bs_version3
unfolding update_predictor next_context
version_kept t bit =
    elim (Bool-cases (ltb 255 (if bit == 0 then t.ctx + t.ctx else t.ctx + (t.ctx + 1)))) [
      | inl e ↦ rw e refl
      | inr e ↦ rw e refl
    ]

pub in_range :
    (version3 : Bool) (p : ℕ) → version3 ≡ false → p ≤ (if version3 then 4096 else 4095) → p < 4096
in_range true p e h = absurd (ground arith)
in_range false p e h = omega arith

-- The predictor as the binary entropy codec uses it, on streams of version 4 or later.
unfoldable pub cm : Predictor
unfolding get_prediction
cm = record {
  State = CmPredictor;
  get = get_prediction;
  update = update_predictor;
  IsValid = λ t. IsValid t × (t.is_bs_version3 ≡ false);
  get_law = λ t v.
      let g = get_prediction-IsValid t v.0 in
      (in_range t.is_bs_version3 (get_prediction t).0 v.1 g.3, (g.0, v.1));
  update_law = λ t bit v h. (update_predictor-IsValid t bit v.0 h, version_kept t bit ∙ v.1);
}
