-- ===== src/Base/Dict.antt =====
-- Go's `map[string]V` as an association list in insertion order. Go's iteration order is not
-- specified; a function that ranges over a map says how the model treats it.
use Prim.Native.Nat.{ℕ, ◌+◌}
use Prim.Native.String.{String}
use mathlib.Core.Path.{◌≡◌, refl}
use mathlib.Core.Option.{Option, none, some}
use mathlib.Core.List.{List, [], ◌∷◌}
use native.Mathlib.Omega.{arith}
use chain_parse_service.Base.Tests.{str_eq, str_eq_iff, if◌then◌else◌}
use chain_parse_service.Base.Lists.{sum_by}

abbrev pub Dict {ℓ} : Type ℓ → Type ℓ
Dict V = List (String × V)

module _ {ℓ} {V : Type ℓ} where
  -- `v, ok := m[k]`
  unfoldable pub lookup : String → Dict V → Option V
  lookup k [] = none
  lookup k ((j, v) ∷ d) = if str_eq j k then some v else lookup k d

  -- `m[k] = v`
  unfoldable pub insert : String → V → Dict V → Dict V
  insert k v [] = (k, v) ∷ []
  insert k v ((j, w) ∷ d) = if str_eq j k then (j, v) ∷ d else (j, w) ∷ insert k v d

  -- `delete(m, k)`
  unfoldable pub erase : String → Dict V → Dict V
  erase k [] = []
  erase k ((j, w) ∷ d) = let rest = erase k d in if str_eq j k then rest else (j, w) ∷ rest

  -- A Go map has one entry for a key.
  abbrev pub NodupKeys : Dict V → Type ℓ
  NodupKeys [] = Unit
  NodupKeys ((k, _) ∷ d) = (lookup k d ≡ none) × NodupKeys d

  pub lookup-insert :
      (k j : String) (v : V) (d : Dict V)
      → lookup j (insert k v d) ≡ (if str_eq k j then some v else lookup j d)
  unfolding lookup insert
  lookup-insert k j v [] = refl
  lookup-insert k j v ((i, w) ∷ d) =
      ground (arith, str_eq_iff k j, str_eq_iff i k, str_eq_iff i j, lookup-insert k j v d)

  pub lookup-erase :
      (k j : String) (d : Dict V) → lookup j (erase k d) ≡ (if str_eq k j then none else lookup j d)
  unfolding lookup erase
  lookup-erase k j [] = ground arith
  lookup-erase k j ((i, w) ∷ d) =
      ground (arith, str_eq_iff k j, str_eq_iff i k, str_eq_iff i j, lookup-erase k j d)

  pub insert-NodupKeys : (k : String) (v : V) (d : Dict V) → NodupKeys d → NodupKeys (insert k v d)
  unfolding lookup insert
  insert-NodupKeys k v [] u = (refl, tt)
  insert-NodupKeys k v ((i, w) ∷ d) u =
      ground (arith, insert-NodupKeys k v d, lookup-insert k i v d, str_eq_iff i k, str_eq_iff k i)

  pub erase-NodupKeys : (k : String) (d : Dict V) → NodupKeys d → NodupKeys (erase k d)
  unfolding lookup erase
  erase-NodupKeys k [] u = tt
  erase-NodupKeys k ((i, w) ∷ d) u = ground (arith, erase-NodupKeys k d, lookup-erase k i d)

  abbrev pub opt_by : (V → ℕ) → Option V → ℕ
  opt_by f none = 0
  opt_by f (some v) = f v

  -- The sum of a measure over the values.
  abbrev pub sum_values : (V → ℕ) → Dict V → ℕ
  sum_values f = sum_by (λ e. f e.1)

  pub sum_values-insert :
      (f : V → ℕ) (k : String) (v : V) (d : Dict V)
      → sum_values f (insert k v d) + opt_by f (lookup k d) ≡ sum_values f d + f v
  unfolding lookup insert
  sum_values-insert f k v [] = omega arith
  sum_values-insert f k v ((i, w) ∷ d) = ground (arith, sum_values-insert f k v d, str_eq_iff i k)

  sum_values-erase_absent :
      (f : V → ℕ) (k : String) (d : Dict V)
      → lookup k d ≡ none
      → sum_values f (erase k d) ≡ sum_values f d
  unfolding lookup erase
  sum_values-erase_absent f k [] h = refl
  sum_values-erase_absent f k ((i, w) ∷ d) h =
      ground (arith, sum_values-erase_absent f k d, str_eq_iff i k)

  pub sum_values-erase :
      (f : V → ℕ) (k : String) (d : Dict V)
      → NodupKeys d
      → sum_values f (erase k d) + opt_by f (lookup k d) ≡ sum_values f d
  unfolding lookup erase
  sum_values-erase f k [] u = omega arith
  sum_values-erase f k ((i, w) ∷ d) u =
      ground (
        arith,
        sum_values-erase f k d,
        sum_values-erase_absent f k d,
        str_eq_iff i k,
        str_eq_iff k i,
      )

pub ruleset dict_laws = (lookup-insert, lookup-erase)
