-- ===== src/Internal/Magic.antt =====
-- v2/internal/Magic.go: the type of a file by its first bytes.
pub mod Jpg
mod Tests
use kanzi_go.Base.{
  ℕ, ◌+◌, ◌-◌, ◌*◌, ◌^◌, List, [], ◌∷◌, Bool, true, false, ◌||◌, ◌&&◌, ◌==◌, if◌then◌else◌, bit_and,
  shr,
}

abbrev pub no_magic : ℕ
no_magic = 0

abbrev pub jpg_magic : ℕ
jpg_magic = 0xFFD8FFE0

abbrev pub gif_magic : ℕ
gif_magic = 0x47494638

abbrev pub pdf_magic : ℕ
pdf_magic = 0x25504446

abbrev pub zip_magic : ℕ
zip_magic = 0x504B0304

abbrev pub lzma_magic : ℕ
lzma_magic = 0x377ABCAF

abbrev pub png_magic : ℕ
png_magic = 0x89504E47

abbrev pub elf_magic : ℕ
elf_magic = 0x7F454C46

abbrev pub mac_magic32 : ℕ
mac_magic32 = 0xFEEDFACE

abbrev pub mac_cigam32 : ℕ
mac_cigam32 = 0xCEFAEDFE

abbrev pub mac_magic64 : ℕ
mac_magic64 = 0xFEEDFACF

abbrev pub mac_cigam64 : ℕ
mac_cigam64 = 0xCFFAEDFE

abbrev pub zstd_magic : ℕ
zstd_magic = 0x28B52FFD

abbrev pub brotli_magic : ℕ
brotli_magic = 0x81CFB2CE

abbrev pub riff_magic : ℕ
riff_magic = 0x52494646

abbrev pub cab_magic : ℕ
cab_magic = 0x4D534346

abbrev pub flac_magic : ℕ
flac_magic = 0x664C6143

abbrev pub xz_magic : ℕ
xz_magic = 0xFD377A58

abbrev pub rar_magic : ℕ
rar_magic = 0x52617221

abbrev pub knz_magic : ℕ
knz_magic = 0x4B414E5A

abbrev pub bzip2_magic : ℕ
bzip2_magic = 0x425A68

abbrev pub mp3_id3_magic : ℕ
mp3_id3_magic = 0x494433

abbrev pub gzip_magic : ℕ
gzip_magic = 0x1F8B

abbrev pub bmp_magic : ℕ
bmp_magic = 0x424D

abbrev pub win_magic : ℕ
win_magic = 0x4D5A

abbrev pub pbm_magic : ℕ
pbm_magic = 0x5034

abbrev pub pgm_magic : ℕ
pgm_magic = 0x5035

abbrev pub ppm_magic : ℕ
ppm_magic = 0x5036

-- `_KEYS32` and `_KEYS16`.
abbrev pub keys32 : List ℕ
keys32 =
    gif_magic ∷ pdf_magic ∷ zip_magic ∷ lzma_magic ∷ png_magic ∷ elf_magic ∷ mac_magic32
    ∷ mac_cigam32 ∷ mac_magic64 ∷ mac_cigam64 ∷ zstd_magic ∷ brotli_magic ∷ cab_magic ∷ riff_magic
    ∷ flac_magic ∷ xz_magic ∷ knz_magic ∷ rar_magic ∷ []

abbrev pub keys16 : List ℕ
keys16 = gzip_magic ∷ bmp_magic ∷ win_magic ∷ []

-- The loops and switches that look for a value among others.
abbrev pub one_of : List ℕ → ℕ → Bool
one_of [] key = false
one_of (k ∷ ks) key = if key == k then true else one_of ks key

-- `key` is a uint of 64 bits.
unfoldable pub magic_of_key : ℕ → ℕ
magic_of_key key =
    let key16 = shr key 16 in
    let subkey = bit_and (shr key 8) 0xFF in
    if bit_and key (2 ^ 64 - 1 - 0x0F) == jpg_magic
    then key
    else if shr key 8 == bzip2_magic || shr key 8 == mp3_id3_magic
    then shr key 8
    else if one_of keys32 key
    then key
    else if one_of keys16 key16
    then key16
    else if (key16 == pbm_magic || key16 == pgm_magic || key16 == ppm_magic)
        && (subkey == 0x07 || subkey == 0x0A || subkey == 0x0D || subkey == 0x20)
    then key16
    else no_magic

-- The key is big endian.
unfoldable pub get_magic_type : List ℕ → ℕ
get_magic_type (a ∷ b ∷ c ∷ d ∷ rest) = magic_of_key (a * 2 ^ 24 + b * 2 ^ 16 + c * 2 ^ 8 + d)
get_magic_type (a ∷ b ∷ c ∷ []) = no_magic
get_magic_type (a ∷ b ∷ []) = no_magic
get_magic_type (a ∷ []) = no_magic
get_magic_type [] = no_magic

unfoldable pub is_data_compressed : ℕ → Bool
is_data_compressed magic =
    one_of
      (jpg_magic ∷ gif_magic ∷ png_magic ∷ lzma_magic ∷ zstd_magic ∷ brotli_magic ∷ cab_magic
        ∷ zip_magic ∷ gzip_magic ∷ bzip2_magic ∷ flac_magic ∷ mp3_id3_magic ∷ xz_magic ∷ knz_magic
        ∷ rar_magic ∷ [])
      magic

unfoldable pub is_data_multimedia : ℕ → Bool
is_data_multimedia magic =
    one_of
      (jpg_magic ∷ gif_magic ∷ png_magic ∷ riff_magic ∷ flac_magic ∷ mp3_id3_magic ∷ bmp_magic
        ∷ pbm_magic ∷ pgm_magic ∷ ppm_magic ∷ [])
      magic

unfoldable pub is_data_executable : ℕ → Bool
is_data_executable magic =
    one_of (elf_magic ∷ win_magic ∷ mac_magic32 ∷ mac_cigam32 ∷ mac_magic64 ∷ mac_cigam64 ∷ [])
      magic
