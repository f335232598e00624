-- ===== src/Entropy/Cm/Tests.antt =====
-- A concrete run of the predictor, and its theorems at a concrete state.
use kanzi_go.Base.{◌+◌, ◌<◌, ◌≤◌, ◌≡◌, refl, arith, none, bit_or}
use kanzi_go.Entropy.Cm.{
  new_cm_predictor, update_predictor, get_prediction, adapt1, adapt2, with_row, next_context, decay,
  grow,
}
use kanzi_go.Base.Arrays.{update}
use kanzi_go.Entropy.Cm.Bounds.{
  IsValid, new_cm_predictor-IsValid, update_predictor-IsValid, get_prediction-IsValid,
}

first_prediction : (get_prediction (new_cm_predictor none)).0 ≡ 2144
unfolding get_prediction new_cm_predictor
first_prediction = refl

after_one :
    (get_prediction (update_predictor (get_prediction (new_cm_predictor none)).1 1)).0 ≡ 2144
unfolding get_prediction new_cm_predictor update_predictor next_context with_row adapt1 adapt2 decay
    grow update
after_one = refl

update_predictor-IsValid_example : IsValid (update_predictor (new_cm_predictor none) 1)
update_predictor-IsValid_example =
    update_predictor-IsValid (new_cm_predictor none) 1 (new_cm_predictor-IsValid none) (omega arith)

get_prediction-IsValid_example :
    IsValid (get_prediction (new_cm_predictor none)).1
    × (bit_or 1 0 < 512)
    × ((get_prediction (new_cm_predictor none)).1.idx + 1 < 17)
    × ((get_prediction (new_cm_predictor none)).0 ≤ 4095)
unfolding new_cm_predictor
get_prediction-IsValid_example =
    get_prediction-IsValid (new_cm_predictor none) (new_cm_predictor-IsValid none)
