-- ===== src/Base/Maps.antt =====
-- A Go map with numbers as keys: a list of keys and values, in which a key stands once.
use Prim.Native.Nat.{ℕ}
use mathlib.Core.Path.{◌≡◌, refl}
use mathlib.Core.Logic.{◌≢◌}
use mathlib.Core.Bool.{true, false}
use mathlib.Core.List.{List, [], ◌∷◌, map}
use mathlib.Core.Option.{Option, none, some}
use native.Mathlib.Omega.{arith}
use go_astits.Base.Tests.{◌==◌, if◌then◌else◌}

abbrev pub Map {ℓ} : Type ℓ → Type ℓ
Map V = List (ℕ × V)

module _ {ℓ} {V : Type ℓ} where
  -- `v, ok := m[k]`
  abbrev pub lookup : Map V → ℕ → Option V
  lookup [] k = none
  lookup ((k', v) ∷ m) k = if k == k' then some v else lookup m k

  -- `delete(m, k)`
  abbrev pub remove : Map V → ℕ → Map V
  remove [] k = []
  remove ((k', v) ∷ m) k = let rest = remove m k in if k == k' then rest else (k', v) ∷ rest

  -- `m[k] = v`
  abbrev pub insert : Map V → ℕ → V → Map V
  insert m k v = (k, v) ∷ remove m k

  abbrev pub keys : Map V → List ℕ
  keys m = map (λ e. e.0) m

pub ==_refl : (k : ℕ) → (k == k) ≡ true
==_refl k = ground arith

pub ==_no : (j k : ℕ) → j ≢ k → (j == k) ≡ false
==_no j k h = ground arith

module _ {ℓ} {V : Type ℓ} where
  pub lookup-remove : (m : Map V) (k : ℕ) → lookup (remove m k) k ≡ none
  lookup-remove [] k = refl
  lookup-remove ((k', v) ∷ m) k = ground (arith, lookup-remove m k)

  pub lookup-remove_other : (m : Map V) (j k : ℕ) → j ≢ k → lookup (remove m k) j ≡ lookup m j
  lookup-remove_other [] j k h = refl
  lookup-remove_other ((k', v) ∷ m) j k h = ground (arith, lookup-remove_other m j k h)

  pub lookup-insert : (m : Map V) (k : ℕ) (v : V) → lookup (insert m k v) k ≡ some v
  lookup-insert m k v = rw (==_refl k) refl

  pub lookup-insert_other :
      (m : Map V) (j k : ℕ) (v : V) → j ≢ k → lookup (insert m k v) j ≡ lookup m j
  lookup-insert_other m j k v h = rw (==_no j k h) (lookup-remove_other m j k h)
