-- ===== src/Internal/Magic/Tests.antt =====
-- Concrete files, and the theorem on JPEG files at one of them.
use kanzi_go.Base.{◌≡◌, refl, arith, [], ◌∷◌, true, false}
use kanzi_go.Internal.Magic.{
  magic_of_key, get_magic_type, is_data_compressed, is_data_multimedia, is_data_executable,
}
use kanzi_go.Internal.Magic.Jpg.{jpg_unclassified}

zip_file : get_magic_type (0x50 ∷ 0x4B ∷ 0x03 ∷ 0x04 ∷ 7 ∷ []) ≡ 0x504B0304
unfolding get_magic_type magic_of_key
zip_file = refl

bzip2_file : get_magic_type (0x42 ∷ 0x5A ∷ 0x68 ∷ 0x39 ∷ []) ≡ 0x425A68
unfolding get_magic_type magic_of_key
bzip2_file = refl

elf_executable : is_data_executable 0x7F454C46 ≡ true
unfolding is_data_executable
elf_executable = refl

jpg_unclassified_example :
    (get_magic_type (0xFF ∷ 0xD8 ∷ 0xFF ∷ 0xE1 ∷ 0 ∷ []) ≡ 0xFFD8FFE1)
    × (is_data_compressed 0xFFD8FFE1 ≡ false)
    × (is_data_multimedia 0xFFD8FFE1 ≡ false)
jpg_unclassified_example = jpg_unclassified 1 (0 ∷ []) (omega arith) (omega arith)
