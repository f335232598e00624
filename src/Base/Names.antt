-- ===== src/Base/Names.antt =====
-- Names as lists of their bytes, and switches between names and numbers as tables.
use kanzi_go.Base.Tests.{leb, ◌==◌, if◌then◌else◌, Bool-cases}
use Prim.Native.Nat.{ℕ, ◌-◌}
use Prim.Native.String.{String}
use Prim.Native.Char.{code}
use mathlib.Core.Path.{◌≡◌, refl, sym, ap, ap₂, ◌∙◌}
use mathlib.Core.Logic.{inl, inr}
use mathlib.Core.Bool.{Bool, true, false, ◌&&◌}
use mathlib.Core.Option.{Option, none, some}
use mathlib.Core.List.{List, [], ◌∷◌, map}
use native.Mathlib.Omega.{arith}

abbrev pub codes : String → List ℕ
codes String.[] = []
codes (String.◌∷◌ c s) = code c ∷ codes s

abbrev pub is_ascii : List ℕ → Bool
is_ascii [] = true
is_ascii (c ∷ s) = leb c 127 && is_ascii s

abbrev pub up : ℕ → ℕ
up c = if leb b'a' c && leb c b'z' then c - 32 else c

abbrev pub ascii_upper : List ℕ → List ℕ
ascii_upper s = map up s

-- `strings.ToUpper` of Go's library, on the bytes of a string. Off ASCII it goes by the tables of Unicode, by
-- which an ASCII letter may come of other characters (ſ gives S).
pub record Strings : Type 0 where
  pub to_upper : List ℕ → List ℕ
  pub ascii_law : (s : List ℕ) → is_ascii s ≡ true → to_upper s ≡ ascii_upper s

-- With the letter ſ, which has the bytes 0xC5 and 0xBF.
abbrev pub long_s_upper : List ℕ → List ℕ
long_s_upper [] = []
long_s_upper (c ∷ []) = up c ∷ []
long_s_upper (c ∷ d ∷ s) = elim (c == 0xC5 && d == 0xBF) [
  | true ↦ b'S' ∷ long_s_upper s
  | false ↦ up c ∷ long_s_upper (d ∷ s)
]

pub long_s_upper-ascii : (s : List ℕ) → is_ascii s ≡ true → long_s_upper s ≡ ascii_upper s
long_s_upper-ascii [] h = refl
long_s_upper-ascii (c ∷ []) h = refl
long_s_upper-ascii (c ∷ d ∷ s) h =
    let rest = long_s_upper-ascii (d ∷ s) (ground arith) in
    let other : (c == 0xC5 && d == 0xBF) ≡ false = ground arith in
    rw (other, long_s_upper) (ap (λ r. up c ∷ r) rest)

abbrev pub reference_strings : Strings
reference_strings = record { to_upper = long_s_upper; ascii_law = long_s_upper-ascii }

abbrev pub same_name : List ℕ → List ℕ → Bool
same_name [] [] = true
same_name [] (y ∷ ys) = false
same_name (x ∷ xs) [] = false
same_name (x ∷ xs) (y ∷ ys) = (x == y) && same_name xs ys

pub same_name→eq : (xs ys : List ℕ) → same_name xs ys ≡ true → xs ≡ ys
same_name→eq [] [] h = refl
same_name→eq [] (y ∷ ys) h = absurd (ground arith)
same_name→eq (x ∷ xs) [] h = absurd (ground arith)
same_name→eq (x ∷ xs) (y ∷ ys) h = ap₂ ◌∷◌ (ground arith) (same_name→eq xs ys (ground arith))

-- `switch` on a number, and on a name; `none` is the default branch.
abbrev pub switch_number : List (ℕ × List ℕ) → ℕ → Option (List ℕ)
switch_number [] t = none
switch_number ((k, n) ∷ cases) t = if k == t then some n else switch_number cases t

abbrev pub switch_name : List (List ℕ × ℕ) → List ℕ → Option ℕ
switch_name [] s = none
switch_name ((n, k) ∷ cases) s = if same_name n s then some k else switch_name cases s

abbrev pub is_number : Option ℕ → ℕ → Bool
is_number none t = false
is_number (some k) t = k == t

abbrev pub is_name : Option (List ℕ) → List ℕ → Bool
is_name none n = false
is_name (some m) n = same_name m n

is_number→eq : (o : Option ℕ) (t : ℕ) → is_number o t ≡ true → o ≡ some t
is_number→eq none t h = absurd (ground arith)
is_number→eq (some k) t h = ap some (ground arith)

is_name→eq : (o : Option (List ℕ)) (n : List ℕ) → is_name o n ≡ true → o ≡ some n
is_name→eq none n h = absurd (ground arith)
is_name→eq (some m) n h = ap some (same_name→eq m n h)

-- Each case of one switch is undone by the other.
abbrev pub numbers_undone : List (List ℕ × ℕ) → List (ℕ × List ℕ) → Bool
numbers_undone names [] = true
numbers_undone names ((k, n) ∷ cases) =
    is_number (switch_name names n) k && numbers_undone names cases

abbrev pub names_undone : List (ℕ × List ℕ) → List (List ℕ × ℕ) → Bool
names_undone numbers [] = true
names_undone numbers ((n, k) ∷ cases) =
    is_name (switch_number numbers k) n && names_undone numbers cases

pub switch_name-switch_number :
    (names : List (List ℕ × ℕ)) (cases : List (ℕ × List ℕ))
    → numbers_undone names cases ≡ true
    → (t : ℕ) (n : List ℕ) → switch_number cases t ≡ some n
    → switch_name names n ≡ some t
switch_name-switch_number names [] h t n e = absurd (ground arith)
switch_name-switch_number names ((k, m) ∷ cases) h t n e = elim (Bool-cases (k == t)) [
  | inl same ↦
      let here : is_number (switch_name names m) k ≡ true = ground arith in
      let eq : k ≡ t = ground arith in
      let eq' : m ≡ n = ground arith in
      ap (switch_name names) (sym eq') ∙ is_number→eq (switch_name names m) k here ∙ ap some eq
  | inr other ↦ switch_name-switch_number names cases (ground arith) t n (rw other at e)
]

pub switch_number-switch_name :
    (numbers : List (ℕ × List ℕ)) (cases : List (List ℕ × ℕ))
    → names_undone numbers cases ≡ true
    → (n : List ℕ) (t : ℕ) → switch_name cases n ≡ some t
    → switch_number numbers t ≡ some n
switch_number-switch_name numbers [] h n t e = absurd (ground arith)
switch_number-switch_name numbers ((m, k) ∷ cases) h n t e = elim (Bool-cases (same_name m n)) [
  | inl same ↦
      let here : is_name (switch_number numbers k) m ≡ true = ground arith in
      let eq : m ≡ n = same_name→eq m n same in
      let eq' : k ≡ t = ground arith in
      ap (switch_number numbers) (sym eq')
      ∙ is_name→eq (switch_number numbers k) m here
      ∙ ap some eq
  | inr other ↦ switch_number-switch_name numbers cases (ground arith) n t (rw other at e)
]
