-- ===== src/Transform/Zrlt/Format.antt =====
-- The code of the transform, described apart from the loops: a sequence of bytes and runs of zeros.
use kanzi_go.Base.{ℕ, ◌+◌, ◌^◌, ◌<◌, ◌-◌, List, [], ◌∷◌, ◌++◌, replicate, leb, if◌then◌else◌}
use kanzi_go.Base.Digits.{bits}
use kanzi_go.Internal.Log2.Bounds.{IsLog2}

-- `run n k` is `n` zeros, where `k` is the logarithm of `n + 1`.
pub data Token : Type 0 where
  lit : ℕ → Token
  run : (n k : ℕ) → Token

abbrev pub literal : ℕ → List ℕ
literal c = if leb 0xFE c then 0xFF ∷ (c - 0xFE) ∷ [] else (c + 1) ∷ []

-- What the tokens stand for, and how they are written.
abbrev pub expand : List Token → List ℕ
expand [] = []
expand (lit c ∷ ts) = c ∷ expand ts
expand (run n k ∷ ts) = replicate n 0 ++ expand ts

abbrev pub code : List Token → List ℕ
code [] = []
code (lit c ∷ ts) = literal c ++ code ts
code (run n k ∷ ts) = bits k (n + 1) ++ code ts

abbrev pub StartsWithByte : List Token → Type 0
StartsWithByte [] = Unit {0}
StartsWithByte (lit c ∷ ts) = Unit {0}
StartsWithByte (run n k ∷ ts) = ⊥

-- Bytes are not 0, runs are not empty and as long as they can be.
abbrev pub IsFormed : List Token → Type 0
IsFormed [] = Unit {0}
IsFormed (lit c ∷ ts) = (0 < c) × (c < 256) × IsFormed ts
IsFormed (run n k ∷ ts) =
    (0 < n) × (n + 1 < 2 ^ 32) × IsLog2 (n + 1) k × StartsWithByte ts × IsFormed ts
