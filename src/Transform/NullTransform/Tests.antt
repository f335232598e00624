-- ===== src/Transform/NullTransform/Tests.antt =====
-- Concrete runs of the copying transform.
use kanzi_go.Base.{◌≡◌, refl, [], ◌∷◌, none, some, ok}
use kanzi_go.Transform.Api.{small_output}
use kanzi_go.Transform.Interface.{slices}
use kanzi_go.Transform.NullTransform.{forward, inverse}

forward_copies :
    forward (slices (1 ∷ 2 ∷ []) (7 ∷ 8 ∷ 9 ∷ []))
    ≡ ok (record { read = 2; written = 2; error = none; dst = 1 ∷ 2 ∷ 9 ∷ [] })
unfolding forward
forward_copies = refl

inverse_refuses :
    inverse (slices (1 ∷ 2 ∷ []) (7 ∷ []))
    ≡ ok (record { read = 0; written = 0; error = some small_output; dst = 7 ∷ [] })
unfolding inverse
inverse_refuses = refl
