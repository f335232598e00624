-- ===== src/Transform/Factory/Tests.antt =====
-- Concrete names of transforms.
use kanzi_go.Base.{ℕ, List, [], ◌∷◌, arith, ◌≡◌, ◌↔◌, refl, none, some}
use kanzi_go.Base.Names.{codes, reference_strings}
use kanzi_go.Transform.Factory.{get_byte_function_name_token, get_byte_function_type_token}
use kanzi_go.Transform.Factory.{
  get_name, get_type, name_places, name_or_none, has_plus, split_plus, pack_tokens,
}
use kanzi_go.Transform.Factory.Packing.{AreNamed, packed, get_type-get_name}
use kanzi_go.Transform.Factory.Names.{type_token_iff_name_token}

text_lower : get_byte_function_type_token reference_strings (codes "Text") ≡ some 10
unfolding get_byte_function_type_token
text_lower = refl

snappy_obsolete : get_byte_function_name_token 4 ≡ none
unfolding get_byte_function_name_token
snappy_obsolete = refl

type_token_iff_name_token_example :
    (get_byte_function_type_token reference_strings (codes "mtft") ≡ some 7)
    ↔ (get_byte_function_name_token 7 ≡ some (reference_strings.to_upper (codes "mtft")))
type_token_iff_name_token_example = type_token_iff_name_token reference_strings (codes "mtft") 7

-- A null transform between two others leaves no place empty.
get_type_of_three : get_type reference_strings (codes "bwt+none+zrlt") ≡ some 0x046000000000
unfolding get_type has_plus split_plus pack_tokens get_byte_function_type_token
get_type_of_three = refl

get_name_of_none : get_name 0 ≡ some (codes "NONE")
unfolding get_name name_places name_or_none get_byte_function_name_token
get_name_of_none = refl

abbrev rank_zrlt : List (ℕ × List ℕ)
rank_zrlt = (8, codes "RANK") ∷ (6, codes "ZRLT") ∷ []

named : AreNamed ((1, codes "BWT") ∷ rank_zrlt)
unfolding get_byte_function_name_token
named = (
  ((λ e. absurd (omega arith)), refl),
  (((λ e. absurd (omega arith)), refl), (((λ e. absurd (omega arith)), refl), tt)),
)

get_type-get_name_example :
    (get_type reference_strings (codes "BWT+RANK+ZRLT")
      ≡ some (packed 8 ((1, codes "BWT") ∷ rank_zrlt)))
    × (get_name (packed 8 ((1, codes "BWT") ∷ rank_zrlt)) ≡ some (codes "BWT+RANK+ZRLT"))
get_type-get_name_example =
    get_type-get_name reference_strings 1 (codes "BWT") rank_zrlt named (omega arith)
