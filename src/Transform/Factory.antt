-- ===== src/Transform/Factory.antt =====
-- v2/transform/Factory.go: the types of transforms and their names.
pub mod Names
pub mod Plain
pub mod Packing
mod Tests
use kanzi_go.Base.{
  ℕ, zero, suc, ◌+◌, ◌-◌, ◌*◌, ◌^◌, Bool, true, false, List, [], ◌∷◌, ◌++◌, Option, none, some,
  bit_and, bit_or, shl, shr, u64, ltb, ◌==◌, if◌then◌else◌, length,
}
use kanzi_go.Base.Names.{codes, Strings, switch_number, switch_name}

abbrev pub none_type : ℕ
none_type = 0

abbrev pub bwt_type : ℕ
bwt_type = 1

abbrev pub bwts_type : ℕ
bwts_type = 2

abbrev pub lz_type : ℕ
lz_type = 3

abbrev pub rlt_type : ℕ
rlt_type = 5

abbrev pub zrlt_type : ℕ
zrlt_type = 6

abbrev pub mtft_type : ℕ
mtft_type = 7

abbrev pub rank_type : ℕ
rank_type = 8

abbrev pub exe_type : ℕ
exe_type = 9

abbrev pub dict_type : ℕ
dict_type = 10

abbrev pub rolz_type : ℕ
rolz_type = 11

abbrev pub rolzx_type : ℕ
rolzx_type = 12

abbrev pub srt_type : ℕ
srt_type = 13

abbrev pub lzp_type : ℕ
lzp_type = 14

abbrev pub mm_type : ℕ
mm_type = 15

abbrev pub lzx_type : ℕ
lzx_type = 16

abbrev pub utf_type : ℕ
utf_type = 17

abbrev pub pack_type : ℕ
pack_type = 18

abbrev pub dna_type : ℕ
dna_type = 19

abbrev pub name_cases : List (ℕ × List ℕ)
name_cases =
    (dict_type, codes "TEXT")
    ∷ (rolz_type, codes "ROLZ")
    ∷ (rolzx_type, codes "ROLZX")
    ∷ (bwt_type, codes "BWT")
    ∷ (bwts_type, codes "BWTS")
    ∷ (lz_type, codes "LZ")
    ∷ (lzx_type, codes "LZX")
    ∷ (lzp_type, codes "LZP")
    ∷ (utf_type, codes "UTF")
    ∷ (exe_type, codes "EXE")
    ∷ (mm_type, codes "MM")
    ∷ (zrlt_type, codes "ZRLT")
    ∷ (rlt_type, codes "RLT")
    ∷ (srt_type, codes "SRT")
    ∷ (rank_type, codes "RANK")
    ∷ (mtft_type, codes "MTFT")
    ∷ (pack_type, codes "PACK")
    ∷ (dna_type, codes "DNA")
    ∷ (none_type, codes "NONE")
    ∷ []

abbrev pub type_cases : List (List ℕ × ℕ)
type_cases =
    (codes "TEXT", dict_type)
    ∷ (codes "BWT", bwt_type)
    ∷ (codes "BWTS", bwts_type)
    ∷ (codes "ROLZ", rolz_type)
    ∷ (codes "ROLZX", rolzx_type)
    ∷ (codes "LZ", lz_type)
    ∷ (codes "LZX", lzx_type)
    ∷ (codes "LZP", lzp_type)
    ∷ (codes "UTF", utf_type)
    ∷ (codes "MM", mm_type)
    ∷ (codes "SRT", srt_type)
    ∷ (codes "RANK", rank_type)
    ∷ (codes "MTFT", mtft_type)
    ∷ (codes "ZRLT", zrlt_type)
    ∷ (codes "RLT", rlt_type)
    ∷ (codes "EXE", exe_type)
    ∷ (codes "PACK", pack_type)
    ∷ (codes "DNA", dna_type)
    ∷ (codes "NONE", none_type)
    ∷ []

unfoldable pub get_byte_function_name_token : ℕ → Option (List ℕ)
get_byte_function_name_token t = switch_number name_cases t

unfoldable pub get_byte_function_type_token : Strings → List ℕ → Option ℕ
get_byte_function_type_token strings name = switch_name type_cases (strings.to_upper name)

abbrev pub bff_one_shift : ℕ
bff_one_shift = 6

abbrev pub bff_max_shift : ℕ
bff_max_shift = 42

abbrev pub bff_mask : ℕ
bff_mask = 63

abbrev pub plus : ℕ
plus = 43

-- The type at place `i` of eight.
abbrev pub place_of : ℕ → ℕ → ℕ
place_of function_type i = bit_and (shr function_type (bff_max_shift - bff_one_shift * i)) bff_mask

abbrev pub append_name : List ℕ → List ℕ → List ℕ
append_name [] name = name
append_name (c ∷ s) name = (c ∷ s) ++ (plus ∷ name)

-- The loop of `GetName` over the places from `i` on.
unfoldable pub name_places : ℕ → (i : ℕ) → (function_type : ℕ) → List ℕ → Option (List ℕ)
name_places zero i function_type s = some s
name_places (suc n) i function_type s = elim (place_of function_type i == none_type) [
  | true ↦ name_places n (suc i) function_type s
  | false ↦ elim (get_byte_function_name_token (place_of function_type i)) [
    | none ↦ none
    | some name ↦ name_places n (suc i) function_type (append_name s name)
  ]
]

unfoldable pub name_or_none : List ℕ → Option (List ℕ)
name_or_none [] = get_byte_function_name_token none_type
name_or_none (c ∷ s) = some (c ∷ s)

unfoldable pub get_name : ℕ → Option (List ℕ)
get_name function_type = elim (name_places 8 0 function_type []) [
  | none ↦ none
  | some s ↦ name_or_none s
]

-- `strings.IndexByte(name, '+') >= 0`
unfoldable pub has_plus : List ℕ → Bool
has_plus [] = false
has_plus (c ∷ s) = if c == plus then true else has_plus s

abbrev pub to_first : ℕ → List (List ℕ) → List (List ℕ)
to_first c [] = (c ∷ []) ∷ []
to_first c (token ∷ tokens) = (c ∷ token) ∷ tokens

-- `strings.Split(name, "+")`
unfoldable pub split_plus : List ℕ → List (List ℕ)
split_plus [] = [] ∷ []
split_plus (c ∷ s) = let rest = split_plus s in if c == plus then [] ∷ rest else to_first c rest

-- The loop of `GetType` over the tokens; after the eighth one the shift is not used.
unfoldable pub pack_tokens : Strings → List (List ℕ) → (shift : ℕ) → ℕ → Option ℕ
pack_tokens strings [] shift res = some res
pack_tokens strings (token ∷ tokens) shift res = elim (get_byte_function_type_token strings token) [
  | none ↦ none
  | some t ↦ elim (t == none_type) [
    | true ↦ pack_tokens strings tokens shift res
    | false ↦ pack_tokens strings tokens (shift - bff_one_shift) (bit_or res (u64 (shl t shift)))
  ]
]

unfoldable pub get_type : Strings → List ℕ → Option ℕ
get_type strings name =
    if has_plus name
    then (let tokens = split_plus name in
        if ltb 8 (length tokens) then none else pack_tokens strings tokens bff_max_shift 0)
    else elim (get_byte_function_type_token strings name) [
      | none ↦ none
      | some t ↦ some (u64 (shl t bff_max_shift))
    ]
