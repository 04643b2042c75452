-- ===== src/Base/Keys.antt =====
-- Maps whose keys are distinct, as every JavaScript `Map` is: what `values` lists.
use mathlib.Core.Path.{◌≡◌, refl}
use mathlib.Core.Bool.{Bool, true}
use mathlib.Core.Option.{none, some}
use mathlib.Core.List.{[], ◌∷◌}
use native.Mathlib.Omega.{arith}
use iam_pager.Base.Tests.{Bool-cases}
use mathlib.Core.Logic.{inl, inr}
use iam_pager.Base.Texts.{Text}
use iam_pager.Base.Lists.{any}
use iam_pager.Base.Map.{Map, get, put, delete, values, get-put, get-delete}

module _ {ℓ} {V : Type ℓ} where
  unfoldable pub IsUnique : Map V → Type ℓ
  IsUnique [] = Unit
  IsUnique ((k, v) ∷ m) = (get m k ≡ none) × IsUnique m

  pub put-IsUnique : (m : Map V) (k : Text) (v : V) → IsUnique m → IsUnique (put m k v)
  unfolding IsUnique put get
  put-IsUnique [] k v u = (refl, tt)
  put-IsUnique ((j, w) ∷ m) k v u =
      ground (arith, u.0, u.1, put-IsUnique m k v u.1, get-put m k j v)

  pub delete-IsUnique : (m : Map V) (k : Text) → IsUnique m → IsUnique (delete m k)
  unfolding IsUnique delete
  delete-IsUnique [] k u = tt
  delete-IsUnique ((j, w) ∷ m) k u = ground (arith, u.0, delete-IsUnique m k u.1, get-delete m k j)

  -- A value that the map has is among its values.
  pub any-values :
      (p : V → Bool) (m : Map V) (k : Text) (v : V)
      → get m k ≡ some v
      → p v ≡ true
      → any p (values m) ≡ true
  unfolding get values
  any-values p [] k v e is = absurd (ground arith)
  any-values p ((j, w) ∷ m) k v e is = ground (arith, any-values p m k v)

  -- Where a value of the map passes a test, some key has it.
  pub values-any :
      (p : V → Bool) (m : Map V)
      → IsUnique m
      → any p (values m) ≡ true
      → (k : Text) × (v : V) × (get m k ≡ some v) × (p v ≡ true)
  unfolding get values IsUnique
  values-any p [] u e = absurd (ground arith)
  values-any p ((j, w) ∷ m) u e = elim (Bool-cases (p w)) [
    | inl here ↦ (j, w, ground arith, here)
    | inr later ↦
        let (k, v, at, is) = values-any p m u.1 (ground arith) in
        (k, v, ground (arith, u.0, at), is)
  ]
