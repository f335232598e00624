-- ===== src/Entropy/Cm.antt =====
-- v2/entropy/CMPredictor.go. The tables of counters are functions of their indexes; Bounds shows that the
-- indexes stay in range. Counters are int32 and never negative.
pub mod Bounds
mod Tests
use kanzi_go.Base.{
  ℕ, ◌+◌, ◌-◌, ◌*◌, ◌/◌, ◌^◌, Bool, true, false, Option, none, some, bit_and, bit_or, shl, shr, u8,
  ltb, leb, ◌==◌, if◌then◌else◌,
}
use kanzi_go.Base.Arrays.{update}

abbrev pub cm_fast_rate : ℕ
cm_fast_rate = 2

abbrev pub cm_medium_rate : ℕ
cm_medium_rate = 4

abbrev pub cm_slow_rate : ℕ
cm_slow_rate = 6

abbrev pub cm_pscale : ℕ
cm_pscale = 65536

pub record CmPredictor : Type 0 where
  pub c1 : ℕ
  pub c2 : ℕ
  pub ctx : ℕ
  pub run_mask : ℕ
  pub counter1 : ℕ → ℕ → ℕ
  pub counter2 : ℕ → ℕ → ℕ
  pub idx : ℕ
  pub is_bs_version3 : Bool

-- `this.isBsVersion3` is still false while the tables are filled.
abbrev pub initial_counter2 : ℕ → ℕ
initial_counter2 j = if ltb j 16 then shl j 12 else 65535

-- The argument is the entry "bsVersion" of the context, if there is one.
unfoldable pub new_cm_predictor : Option ℕ → CmPredictor
new_cm_predictor bs_version = record {
  c1 = 0;
  c2 = 0;
  ctx = 1;
  run_mask = 0;
  counter1 = λ i j. shr cm_pscale 1;
  counter2 = λ i j. initial_counter2 j;
  idx = 0;
  is_bs_version3 = elim bs_version [ none ↦ false | some version ↦ ltb version 4 ];
}

-- `pc -= pc >> rate`, and `pc -= (pc - _CM_PSCALE + 16) >> rate`, where the shift rounds down.
unfoldable pub decay : ℕ → ℕ → ℕ
decay rate pc = pc - shr pc rate

unfoldable pub grow : ℕ → ℕ → ℕ
grow rate pc =
    if leb (cm_pscale - 16) pc
    then pc - shr (pc - (cm_pscale - 16)) rate
    else pc + shr (cm_pscale - 16 - pc + (2 ^ rate - 1)) rate

abbrev pub adapt : Bool → ℕ → ℕ → ℕ
adapt zero_bit rate pc = if zero_bit then decay rate pc else grow rate pc

-- Four entries change one after the other: two of a row of `counter1`, two of a row of `counter2`.
unfoldable pub adapt1 : Bool → ℕ → (ℕ → ℕ) → ℕ → ℕ
adapt1 b c1 row =
    let row' = update row 256 (adapt b cm_fast_rate (row 256)) in
    update row' c1 (adapt b cm_medium_rate (row' c1))

unfoldable pub adapt2 : Bool → ℕ → (ℕ → ℕ) → ℕ → ℕ
adapt2 b idx row =
    let row' = update row idx (adapt b cm_slow_rate (row idx)) in
    update row' (idx + 1) (adapt b cm_slow_rate (row' (idx + 1)))

-- One row of a table is replaced.
unfoldable pub with_row : (ℕ → ℕ → ℕ) → ℕ → (ℕ → ℕ) → ℕ → ℕ → ℕ
with_row table i row k = if k == i then row else table k

-- The end of `Update`: the byte is complete once `ctx` reaches 256.
unfoldable pub next_context : CmPredictor → ℕ → CmPredictor
next_context t ctx =
    if ltb 255 ctx
    then record t {
      c1 = u8 ctx;
      c2 = t.c1;
      ctx = 1;
      run_mask = if u8 ctx == t.c1 then 0x100 else 0;
    }
    else record t { ctx = ctx }

unfoldable pub update_predictor : CmPredictor → ℕ → CmPredictor
update_predictor t bit =
    let b = bit == 0 in
    let row2 = bit_or t.ctx t.run_mask in
    next_context
      (record t {
        counter1 = with_row t.counter1 t.ctx (adapt1 b t.c1 (t.counter1 t.ctx));
        counter2 = with_row t.counter2 row2 (adapt2 b t.idx (t.counter2 row2));
      })
      (if b then t.ctx + t.ctx else t.ctx + (t.ctx + 1))

-- `x1 + (((x2 - x1) * m) >> 12)`, where the shift rounds down.
unfoldable pub interpolate : ℕ → ℕ → ℕ → ℕ
interpolate x1 x2 m =
    if leb x1 x2 then x1 + shr ((x2 - x1) * m) 12 else x1 - shr ((x1 - x2) * m + 4095) 12

abbrev pub mixed : CmPredictor → ℕ
mixed t = let pc1 = t.counter1 t.ctx in shr (13 * (pc1 256 + pc1 t.c1) + 6 * pc1 t.c2) 5

unfoldable pub get_prediction : CmPredictor → ℕ × CmPredictor
get_prediction t =
    let pc2 = t.counter2 (bit_or t.ctx t.run_mask) in
    let p = mixed t in
    let i = shr p 12 in
    let x2 = pc2 (i + 1) in
    let x1 = pc2 i in
    (
      if t.is_bs_version3
          then shr (p + 3 * interpolate x1 x2 (bit_and p 4095) + 32) 6
          else shr (p + p + 3 * (x1 + x2) + 64) 7,
      record t { idx = i },
    )
