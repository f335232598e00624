-- ===== src/Entropy/Factory.antt =====
-- v2/entropy/EntropyCodecFactory.go: the types of entropy codecs, their names, and what each one makes.
pub mod Names
mod Tests
use kanzi_go.Base.{ℕ, List, [], ◌∷◌, Option, none, some, ◌==◌, ◌||◌, if◌then◌else◌}
use kanzi_go.Base.Names.{codes, Strings, switch_number, switch_name}

abbrev pub none_type : ℕ
none_type = 0

abbrev pub huffman_type : ℕ
huffman_type = 1

abbrev pub fpaq_type : ℕ
fpaq_type = 2

abbrev pub range_type : ℕ
range_type = 4

abbrev pub ans0_type : ℕ
ans0_type = 5

abbrev pub cm_type : ℕ
cm_type = 6

abbrev pub tpaq_type : ℕ
tpaq_type = 7

abbrev pub ans1_type : ℕ
ans1_type = 8

abbrev pub tpaqx_type : ℕ
tpaqx_type = 9

-- The constructor that is called, with the order of an ANS codec.
pub data Codec : Type 0 where
  huffman range fpaq null : Codec
  ans : (order : ℕ) → Codec
  binary_cm binary_tpaq : Codec

unfoldable pub new_entropy_decoder : ℕ → Option Codec
new_entropy_decoder t =
    if t == huffman_type
    then some huffman
    else if t == ans0_type
    then some (ans 0)
    else if t == ans1_type
    then some (ans 1)
    else if t == range_type
    then some range
    else if t == fpaq_type
    then some fpaq
    else if t == cm_type
    then some binary_cm
    else if t == tpaq_type || t == tpaqx_type
    then some binary_tpaq
    else if t == none_type
    then some null
    else none

unfoldable pub new_entropy_encoder : ℕ → Option Codec
new_entropy_encoder t =
    if t == huffman_type
    then some huffman
    else if t == ans0_type
    then some (ans 0)
    else if t == ans1_type
    then some (ans 1)
    else if t == range_type
    then some range
    else if t == fpaq_type
    then some fpaq
    else if t == cm_type
    then some binary_cm
    else if t == tpaq_type || t == tpaqx_type
    then some binary_tpaq
    else if t == none_type
    then some null
    else none

abbrev pub name_cases : List (ℕ × List ℕ)
name_cases =
    (huffman_type, codes "HUFFMAN")
    ∷ (ans0_type, codes "ANS0")
    ∷ (ans1_type, codes "ANS1")
    ∷ (range_type, codes "RANGE")
    ∷ (fpaq_type, codes "FPAQ")
    ∷ (cm_type, codes "CM")
    ∷ (tpaq_type, codes "TPAQ")
    ∷ (tpaqx_type, codes "TPAQX")
    ∷ (none_type, codes "NONE")
    ∷ []

abbrev pub type_cases : List (List ℕ × ℕ)
type_cases =
    (codes "HUFFMAN", huffman_type)
    ∷ (codes "ANS0", ans0_type)
    ∷ (codes "ANS1", ans1_type)
    ∷ (codes "RANGE", range_type)
    ∷ (codes "FPAQ", fpaq_type)
    ∷ (codes "CM", cm_type)
    ∷ (codes "TPAQ", tpaq_type)
    ∷ (codes "TPAQX", tpaqx_type)
    ∷ (codes "NONE", none_type)
    ∷ []

unfoldable pub get_name : ℕ → Option (List ℕ)
get_name t = switch_number name_cases t

unfoldable pub get_type : Strings → List ℕ → Option ℕ
get_type strings name = switch_name type_cases (strings.to_upper name)
