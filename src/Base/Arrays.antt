-- ===== src/Base/Arrays.antt =====
-- Fixed-size arrays with an index that Go's types keep in range, as functions of the index.
use kanzi_go.Base.Tests.{◌==◌, if◌then◌else◌}
use Prim.Native.Nat.{ℕ}
use mathlib.Core.Path.{◌≡◌}
use mathlib.Core.Logic.{◌≢◌}
use native.Mathlib.Omega.{arith}

-- `f[k] = v`
unfoldable pub update : (ℕ → ℕ) → ℕ → ℕ → ℕ → ℕ
update f k v i = if i == k then v else f i

pub update_self : (f : ℕ → ℕ) (k v : ℕ) → update f k v k ≡ v
unfolding update
update_self f k v = ground arith

pub update_other : (f : ℕ → ℕ) (k v i : ℕ) → i ≢ k → update f k v i ≡ f i
unfolding update
update_other f k v i h = ground arith
