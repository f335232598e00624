-- ===== src/Entropy/Factory/Names.antt =====
-- Names and types of entropy codecs.
use kanzi_go.Base.{ℕ, List, ◌≡◌, ◌↔◌, refl, some}
use kanzi_go.Base.Names.{Strings, switch_name-switch_number, switch_number-switch_name}
use kanzi_go.Entropy.Factory.{name_cases, type_cases, get_name, get_type}

-- For `strings.ToUpper`, whatever it does to a name: a name is the name of a type exactly if the name of that
-- type is the name in upper case.
pub get_type_iff_get_name :
    (strings : Strings) (name : List ℕ) (t : ℕ)
    → (get_type strings name ≡ some t) ↔ (get_name t ≡ some (strings.to_upper name))
unfolding get_type get_name
get_type_iff_get_name strings name t = (
  switch_number-switch_name name_cases type_cases refl (strings.to_upper name) t,
  switch_name-switch_number type_cases name_cases refl t (strings.to_upper name),
)
