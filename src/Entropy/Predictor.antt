-- ===== src/Entropy/Predictor.antt =====
-- `kanzi.Predictor` of v2/Definitions.go: what the binary entropy codec needs of a predictor.
use kanzi_go.Base.{ℕ, ◌<◌}

pub record Predictor : Type 1 where
  pub State : Type 0
  -- The prediction; `Get` may change the predictor.
  pub get : State → ℕ × State
  pub update : State → (bit : ℕ) → State
  pub IsValid : State → Type 0
  -- "in the [0..4095] range"
  pub get_law : (s : State) → IsValid s → ((get s).0 < 4096) × IsValid (get s).1
  pub update_law : (s : State) (bit : ℕ) → IsValid s → bit < 2 → IsValid (update s bit)
