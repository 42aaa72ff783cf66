-- ===== src/Prelude/Dict.antt =====
-- A hash map with integer keys, as an association list with one entry for a key.
use Prim.Native.Nat.{ℕ}
use mathlib.Core.Path.{◌≡◌}
use mathlib.Core.Bool.{Bool, true, false}
use mathlib.Core.Option.{Option, none, some}
use mathlib.Core.List.{List, [], ◌∷◌, map}
use native.Mathlib.Omega.{arith}
use rust_netx.Prelude.Tests.{◌==◌, if◌then◌else◌}

abbrev pub Dict {ℓ} : Type ℓ → Type ℓ
Dict V = List (ℕ × V)

module _ {ℓ} {V : Type ℓ} where
  unfoldable pub lookup : ℕ → Dict V → Option V
  lookup k [] = none
  lookup k ((j, v) ∷ d) = if j == k then some v else lookup k d

  unfoldable pub remove : ℕ → Dict V → Dict V
  remove k [] = []
  remove k ((j, v) ∷ d) = let rest = remove k d in if j == k then rest else (j, v) ∷ rest

  unfoldable pub insert : ℕ → V → Dict V → Dict V
  unfolding remove
  insert k v d = (k, v) ∷ remove k d

  unfoldable pub contains_key : ℕ → Dict V → Bool
  unfolding lookup
  contains_key k d = elim (lookup k d) [ some _ ↦ true | none ↦ false ]

  unfoldable pub values : Dict V → List V
  values d = map (λ e. e.1) d

  pub lookup-remove :
      (k j : ℕ) (d : Dict V) → lookup j (remove k d) ≡ (if k == j then none else lookup j d)
  unfolding lookup remove
  lookup-remove k j [] = ground arith
  lookup-remove k j ((i, v) ∷ d) = ground (arith, lookup-remove k j d)

  pub lookup-insert :
      (k j : ℕ) (v : V) (d : Dict V)
      → lookup j (insert k v d) ≡ (if k == j then some v else lookup j d)
  unfolding insert lookup
  lookup-insert k j v d = ground (arith, lookup-remove k j d)

  -- Taking out what was put in for a key that was absent changes no lookup.
  pub remove_inserted :
      (k : ℕ) (v : V) (d : Dict V)
      → lookup k d ≡ none
      → (j : ℕ) → lookup j (remove k (insert k v d)) ≡ lookup j d
  remove_inserted k v d h j =
      ground (arith, lookup-remove k j (insert k v d), lookup-insert k j v d)

  pub contains_key_cases : (k : ℕ) (d : Dict V) → contains_key k d ≡ false → lookup k d ≡ none
  unfolding contains_key
  contains_key_cases k d h = ground arith
