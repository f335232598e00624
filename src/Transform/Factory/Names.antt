-- ===== src/Transform/Factory/Names.antt =====
-- Names and types of single transforms.
use kanzi_go.Base.{ℕ, List, ◌≡◌, ◌↔◌, refl, some}
use kanzi_go.Base.Names.{Strings, switch_name-switch_number, switch_number-switch_name}
use kanzi_go.Transform.Factory.{
  name_cases, type_cases, get_byte_function_name_token, get_byte_function_type_token,
}

-- For `strings.ToUpper`, whatever it does to a name: a name is the name of a transform exactly if the name of
-- that transform's type is the name in upper case.
pub type_token_iff_name_token :
    (strings : Strings) (name : List ℕ) (t : ℕ)
    → (get_byte_function_type_token strings name ≡ some t)
      ↔ (get_byte_function_name_token t ≡ some (strings.to_upper name))
unfolding get_byte_function_type_token get_byte_function_name_token
type_token_iff_name_token strings name t = (
  switch_number-switch_name name_cases type_cases refl (strings.to_upper name) t,
  switch_name-switch_number type_cases name_cases refl t (strings.to_upper name),
)
