-- ===== src/Internal/Magic/Jpg.antt =====
-- JPEG files.
use kanzi_go.Base.{ℕ, ◌+◌, ◌*◌, ◌^◌, ◌<◌, ◌≡◌, refl, ap, ◌∙◌, arith, List, ◌∷◌, false}
use kanzi_go.Base.Bits.{agree_below, agree_below→eq}
use kanzi_go.Internal.Magic.{
  jpg_magic, magic_of_key, get_magic_type, is_data_compressed, is_data_multimedia,
}

found : ℕ → ℕ
unfolding magic_of_key
found d = magic_of_key (jpg_magic + d)

marker : ℕ → ℕ
marker d = jpg_magic + d

found-marker : (d : ℕ) → d < 16 → found d ≡ marker d
unfolding found marker agree_below magic_of_key
found-marker d h = agree_below→eq found marker 16 refl d h

-- For any four bytes that begin like a JPEG file, but for the first of the sixteen markers, `GetMagicType`
-- returns the marker, and this is classified neither as compressed nor as multimedia data.
pub jpg_unclassified :
    (d : ℕ) (rest : List ℕ)
    → 0 < d
    → d < 16
    → (get_magic_type (0xFF ∷ 0xD8 ∷ 0xFF ∷ (0xE0 + d) ∷ rest) ≡ jpg_magic + d)
      × (is_data_compressed (jpg_magic + d) ≡ false)
      × (is_data_multimedia (jpg_magic + d) ≡ false)
unfolding get_magic_type is_data_compressed is_data_multimedia found marker
jpg_unclassified d rest p h =
    let key : 0xFF * 2 ^ 24 + 0xD8 * 2 ^ 16 + 0xFF * 2 ^ 8 + (0xE0 + d) ≡ jpg_magic + d =
      omega arith in
    (ap magic_of_key key ∙ found-marker d h, ground arith, ground arith)
