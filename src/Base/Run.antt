-- ===== src/Base/Run.antt =====
-- The result of running Go code: a value, a run-time panic, or a loop of the model whose fuel is out
-- (which stands for no behaviour of the program).

use mathlib.Core.Path.{◌≡◌, refl}

pub data Exec {ℓ} (A : Type ℓ) : Type ℓ where
  ok : A → Exec A
  panic : Exec A
  stuck : Exec A

infixl 5 ◌>>=◌
abbrev pub ◌>>=◌ {ℓ κ} : {A : Type ℓ} {B : Type κ} → Exec A → (A → Exec B) → Exec B
ok a >>= f = f a
panic >>= f = panic
stuck >>= f = stuck

pub bind_cong {ℓ κ} :
    {A : Type ℓ} {B : Type κ} (r : Exec A) {f g : A → Exec B}
    → ((a : A) → f a ≡ g a)
    → (r >>= f) ≡ (r >>= g)
bind_cong (ok a) h = h a
bind_cong panic h = refl
bind_cong stuck h = refl

pub bind_assoc {ℓ κ μ} :
    {A : Type ℓ} {B : Type κ} {C : Type μ} (r : Exec A) (f : A → Exec B) (g : B → Exec C)
    → ((r >>= f) >>= g) ≡ (r >>= λ a. f a >>= g)
bind_assoc (ok a) f g = refl
bind_assoc panic f g = refl
bind_assoc stuck f g = refl

pub bind_ok {ℓ} : {A : Type ℓ} (r : Exec A) → (r >>= λ a. ok a) ≡ r
bind_ok (ok a) = refl
bind_ok panic = refl
bind_ok stuck = refl
