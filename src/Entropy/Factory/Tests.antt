-- ===== src/Entropy/Factory/Tests.antt =====
-- Concrete names of entropy codecs.
use kanzi_go.Base.{[], ◌∷◌, ◌≡◌, ◌↔◌, refl, none, some}
use kanzi_go.Base.Names.{codes, reference_strings}
use kanzi_go.Entropy.Factory.{
  get_name, get_type, new_entropy_encoder, new_entropy_decoder, binary_tpaq,
}
use kanzi_go.Entropy.Factory.Names.{get_type_iff_get_name}

tpaqx_lower : get_type reference_strings (codes "tpaqX") ≡ some 9
unfolding get_type
tpaqx_lower = refl

paq_obsolete : get_name 3 ≡ none
unfolding get_name
paq_obsolete = refl

tpaqx_encoder : new_entropy_encoder 9 ≡ some binary_tpaq
unfolding new_entropy_encoder
tpaqx_encoder = refl

tpaqx_decoder : new_entropy_decoder 9 ≡ some binary_tpaq
unfolding new_entropy_decoder
tpaqx_decoder = refl

get_type_iff_get_name_example :
    (get_type reference_strings (codes "huffman") ≡ some 1)
    ↔ (get_name 1 ≡ some (reference_strings.to_upper (codes "huffman")))
get_type_iff_get_name_example = get_type_iff_get_name reference_strings (codes "huffman") 1

-- The bytes of anſ0.
ans0_long_s : get_type reference_strings (b'a' ∷ b'n' ∷ 0xC5 ∷ 0xBF ∷ b'0' ∷ []) ≡ some 5
unfolding get_type
ans0_long_s = refl
