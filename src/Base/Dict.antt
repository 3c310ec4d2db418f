-- ===== src/Base/Dict.antt =====
-- A Python dict keyed by texts, in insertion order.
use Prim.Native.String.{String}
use mathlib.Core.Path.{◌≡◌, refl}
use mathlib.Core.Logic.{inl, inr}
use mathlib.Core.Bool.{Bool, true}
use mathlib.Core.Option.{Option, none, some}
use mathlib.Core.List.{List, [], ◌∷◌}
use native.Mathlib.Omega.{arith}
use text.Mathlib.Text.{◌==◌}
use text.Mathlib.TextEquality.{eq_iff}
use opl_flow.Base.Bools.{if◌then◌else◌, Bool-cases}
use opl_flow.Base.Lists.{all}

abbrev pub Dict {ℓ} : Type ℓ → Type ℓ
Dict V = List (String × V)

module _ {ℓ} {V : Type ℓ} where
  unfoldable pub lookup : String → Dict V → Option V
  lookup k [] = none
  lookup k ((j, v) ∷ d) = if j == k then some v else lookup k d

  -- `d[k] = v`
  unfoldable pub insert : String → V → Dict V → Dict V
  insert k v [] = (k, v) ∷ []
  insert k v ((j, w) ∷ d) = if j == k then (k, v) ∷ d else (j, w) ∷ insert k v d

  -- `del d[k]`. Every entry of the key goes; a dict has at most one.
  unfoldable pub erase : String → Dict V → Dict V
  erase k [] = []
  erase k ((j, w) ∷ d) = let rest = erase k d in if j == k then rest else (j, w) ∷ rest

  abbrev pub NodupKeys : Dict V → Type ℓ
  NodupKeys [] = Unit
  NodupKeys ((k, v) ∷ d) = (lookup k d ≡ none) × NodupKeys d

  pub lookup-insert :
      (j k : String) (v : V) (d : Dict V)
      → lookup j (insert k v d) ≡ (if k == j then some v else lookup j d)
  unfolding lookup insert
  lookup-insert j k v [] = refl
  lookup-insert j k v ((i, w) ∷ d) =
      ground (arith, eq_iff k j, eq_iff i k, eq_iff i j, lookup-insert j k v d)

  pub lookup-erase :
      (j k : String) (d : Dict V) → lookup j (erase k d) ≡ (if k == j then none else lookup j d)
  unfolding lookup erase
  lookup-erase j k [] = ground arith
  lookup-erase j k ((i, w) ∷ d) =
      ground (arith, eq_iff k j, eq_iff i k, eq_iff i j, lookup-erase j k d)

  pub insert-NodupKeys : (k : String) (v : V) (d : Dict V) → NodupKeys d → NodupKeys (insert k v d)
  unfolding insert
  insert-NodupKeys k v [] h = (unfold lookup in refl, tt)
  insert-NodupKeys k v ((j, w) ∷ d) h =
      ground (arith, eq_iff j k, eq_iff k j, insert-NodupKeys k v d h.1, lookup-insert j k v d)

  pub erase-NodupKeys : (k : String) (d : Dict V) → NodupKeys d → NodupKeys (erase k d)
  unfolding erase
  erase-NodupKeys k [] h = tt
  erase-NodupKeys k ((j, w) ∷ d) h =
      ground (arith, eq_iff j k, eq_iff k j, erase-NodupKeys k d h.1, lookup-erase j k d)

  -- A test that passes on every item passes on an item that is found.
  pub all-lookup :
      (p : String × V → Bool) (k : String) (v : V) (d : Dict V)
      → all p d ≡ true
      → lookup k d ≡ some v
      → p (k, v) ≡ true
  unfolding lookup
  all-lookup p k v [] h e = cc
  all-lookup p k v ((j, w) ∷ d) h e = elim (Bool-cases (j == k)) [
    | inl same ↦ ground (arith, eq_iff j k)
    | inr other ↦ ground (arith, all-lookup p k v d)
  ]
