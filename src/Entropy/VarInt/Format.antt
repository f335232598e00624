-- ===== src/Entropy/VarInt/Format.antt =====
-- The bytes of a variable length integer: seven bits each, lowest first, all but the last with 128 added.
use kanzi_go.Base.{
  ℕ, zero, suc, ◌+◌, ◌/◌, ◌%◌, ◌≤◌, ◌≡◌, List, [], ◌∷◌, refl, true, false, leb, if◌then◌else◌,
  arith, length,
}

-- The first byte, and those behind it.
abbrev pub first : ℕ → ℕ
first v = if leb 128 v then 128 + v % 128 else v

unfoldable pub groups : ℕ → ℕ → List ℕ
groups zero v = v ∷ []
groups (suc k) v = let more = groups k (v / 128) in first v ∷ (if leb 128 v then more else [])

abbrev pub more : ℕ → ℕ → List ℕ
more k v = if leb 128 v then groups k (v / 128) else []

pub groups-suc : (k v : ℕ) → groups (suc k) v ≡ first v ∷ more k v
unfolding groups
groups-suc k v = ground arith

-- What `WriteVarInt` writes for a uint32.
abbrev pub var_int_bytes : ℕ → List ℕ
var_int_bytes v = groups 4 v

pub groups-big :
    (k v : ℕ) → leb 128 v ≡ true → groups (suc k) v ≡ (128 + v % 128) ∷ groups k (v / 128)
unfolding groups
groups-big k v big = ground arith

pub groups-small : (k v : ℕ) → leb 128 v ≡ false → groups k v ≡ v ∷ []
unfolding groups
groups-small zero v small = refl
groups-small (suc k) v small = ground arith

pub length-groups : (k v : ℕ) → length (groups k v) ≤ k + 1
unfolding groups
length-groups zero v = omega arith
length-groups (suc k) v = ground (arith, length-groups k (v / 128))
