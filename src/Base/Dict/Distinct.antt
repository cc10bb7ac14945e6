-- ===== src/Base/Dict/Distinct.antt =====
-- Dictionaries without a second entry for a key, as all that `put` and `delete` build are; there
-- the values that a loop visits are those that `get` returns.
use Prim.Native.String.{String}
use mathlib.Core.Path.{◌≡◌, refl}
use mathlib.Core.Bool.{Bool, true, false}
use mathlib.Core.Option.{some}
use mathlib.Core.List.{[], ◌∷◌}
use native.Mathlib.Omega.{arith}
use text.Mathlib.TextEquality.{eq_iff}
use device_sdk_python.Base.Lists.{all}
use device_sdk_python.Base.Dict.{Dict, get, put, delete, has, values, has-put, has-delete, has-get}

module _ {V : Type 0} where
  abbrev pub IsDistinct : Dict V → Type 0
  IsDistinct [] = Unit
  IsDistinct ((j, v) ∷ d) = (has d j ≡ false) × IsDistinct d

  pub put-IsDistinct : (d : Dict V) (k : String) (v : V) → IsDistinct d → IsDistinct (put d k v)
  unfolding put has
  put-IsDistinct [] k v h = (refl, tt)
  put-IsDistinct ((j, w) ∷ d) k v (new, h) =
      ground (arith, put-IsDistinct d k v h, has-put d k j v, eq_iff j k, eq_iff k j)

  pub delete-IsDistinct : (d : Dict V) (k : String) → IsDistinct d → IsDistinct (delete d k)
  unfolding delete
  delete-IsDistinct [] k h = tt
  delete-IsDistinct ((j, w) ∷ d) k (new, h) =
      ground (arith, delete-IsDistinct d k h, has-delete d k j)

  -- What holds of all values holds of every value that `get` returns.
  pub get-values :
      (d : Dict V) (p : V → Bool) (k : String) (v : V)
      → all p (values d) ≡ true
      → get d k ≡ some v
      → p v ≡ true
  unfolding get values
  get-values [] p k v h e = cc
  get-values ((j, w) ∷ d) p k v h e = ground (arith, get-values d p k v)

  -- And back, if no key has a second entry.
  pub values-get :
      (d : Dict V) (p : V → Bool)
      → IsDistinct d
      → ((k : String) (v : V) → get d k ≡ some v → p v ≡ true)
      → all p (values d) ≡ true
  unfolding get values
  values-get [] p distinct h = refl
  values-get ((j, w) ∷ d) p (new, distinct) h = ground (
    arith,
    h j w,
    eq_iff j j,
    values-get d p distinct (λ k v e. h k v (ground (arith, eq_iff j k, has-get d k))),
  )
