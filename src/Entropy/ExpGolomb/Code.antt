-- ===== src/Entropy/ExpGolomb/Code.antt =====
-- What the tables hold: each code is a number of zeros, a one, and digits of the value.
use kanzi_go.Base.{
  ℕ, zero, suc, ◌+◌, ◌-◌, ◌/◌, ◌%◌, ◌^◌, ◌<◌, ◌≤◌, ◌≡◌, refl, List, [], ◌∷◌, ◌++◌, replicate, arith,
  Bool, true, false, ◌&&◌, ◌==◌, ltb, leb, if◌then◌else◌, get_or, length, bit_and, shr, some,
  get_elem?, get_elem?-eq-get_or,
}
use kanzi_go.Base.Bits.{agree_below, agree_below→eq}
use kanzi_go.Base.Digits.{bits}
use kanzi_go.Entropy.ExpGolomb.{cache, signed_value, unsigned_value}
use kanzi_go.Entropy.ExpGolomb.Tables.{unsigned_values, signed_values}
use kanzi_go.Entropy.ExpGolomb.Shape.{bits-code}

-- The value that comes back: the unsigned codes above 128 are those of `256 - val`.
abbrev pub decoded : Bool → ℕ → ℕ
decoded true val = val
decoded false val = if leb val 128 then val else 256 - val

-- The parts of the code of `val`: the zeros, the digits behind the one, and their value.
pub entry : Bool → ℕ → ℕ
entry signed val = get_or (cache signed) val 0

pub zeros : Bool → ℕ → ℕ
unfolding entry
zeros true val = (entry true val / 512 - 2) / 2
zeros false val = (entry false val / 512 - 1) / 2

-- The digits behind the one: with a sign there is one more.
abbrev pub digits_behind : Bool → ℕ → ℕ
digits_behind true k = k + 1
digits_behind false k = k

pub low : Bool → ℕ → ℕ
unfolding entry zeros
low signed val = entry signed val % 512 - 2 ^ digits_behind signed (zeros signed val)

abbrev pub value : Bool → ℕ → ℕ → ℕ
value true k v = signed_value k v
value false k v = unsigned_value k v

entry_check : Bool → ℕ → Bool
entry_check signed val =
    let k = zeros signed val in
    let j = digits_behind signed k in
    let v = low signed val in
    leb 1 k
    && leb k 7
    && ltb v (2 ^ j)
    && (bit_and (entry signed val) 0x1FF == 2 ^ j + v)
    && (shr (entry signed val) 9 == k + suc j)
    && (value signed k v == decoded signed val)

entry_flag : Bool → ℕ → ℕ
unfolding entry_check
entry_flag signed i = if entry_check signed (i + 1) then 1 else 0

entries_checked : (signed : Bool) → agree_below (entry_flag signed) (λ i. 1) 255 ≡ true
unfolding agree_below entry_flag entry zeros low signed_value unsigned_value cache signed_values
    unsigned_values
entries_checked true = refl
entries_checked false = refl

-- What the table check says of one value.
pub record Entry (signed : Bool) (val : ℕ) : Type 0 where
  pub some_zeros : 1 ≤ zeros signed val
  pub few_zeros : zeros signed val ≤ 7
  pub low_bound : low signed val < 2 ^ digits_behind signed (zeros signed val)
  pub code_bits :
      bit_and (entry signed val) 0x1FF
      ≡ 2 ^ digits_behind signed (zeros signed val) + low signed val
  pub code_length :
      shr (entry signed val) 9 ≡ zeros signed val + suc (digits_behind signed (zeros signed val))
  pub comes_back : value signed (zeros signed val) (low signed val) ≡ decoded signed val

Entry-holds : (signed : Bool) (val : ℕ) → entry_check signed val ≡ true → Entry signed val
unfolding entry_check
Entry-holds signed val h = ground arith

pub all-Entry : (signed : Bool) (val : ℕ) → 0 < val → val < 256 → Entry signed val
unfolding entry_flag
all-Entry signed val p h =
    let e : val - 1 + 1 ≡ val = omega arith in
    let flag =
      agree_below→eq (entry_flag signed) (λ i. 1) 255 (entries_checked signed) (val - 1)
        (omega arith) in
    rw e at (Entry-holds signed (val - 1 + 1) (ground arith))

length-cache : (signed : Bool) → length (cache signed) ≡ 256
unfolding cache signed_values unsigned_values
length-cache true = refl
length-cache false = refl

pub cache-entry :
    (signed : Bool) (val : ℕ) → val < 256 → get_elem? (cache signed) val ≡ some (entry signed val)
unfolding entry
cache-entry signed val h =
    get_elem?-eq-get_or (cache signed) val 0 (omega (arith, length-cache signed))

-- The bits of a byte's code.
unfoldable pub codeword : Bool → ℕ → List ℕ
codeword signed zero = 1 ∷ []
codeword signed (suc n) =
    let val = suc n in
    replicate (zeros signed val) 0
    ++ (1 ∷ bits (digits_behind signed (zeros signed val)) (low signed val))

pub bits-entry :
    (signed : Bool) (n : ℕ)
    → suc n < 256
    → bits (shr (entry signed (suc n)) 9) (bit_and (entry signed (suc n)) 0x1FF)
      ≡ codeword signed (suc n)
unfolding codeword
bits-entry signed n h =
    let e = all-Entry signed (suc n) (omega arith) h in
    rw (e.code_bits, e.code_length) (bits-code _ _ _ e.low_bound)

pub digits_behind_bounds :
    (signed : Bool) (k : ℕ) → (k ≤ digits_behind signed k) × (digits_behind signed k ≤ k + 1)
digits_behind_bounds true k = omega arith
digits_behind_bounds false k = omega arith
