-- ===== src/Base/Lists.antt =====
-- Lists measured by native numbers, membership and equality of lists of texts, sorted sets.
use Prim.Native.Nat.{ℕ, zero, suc, ◌+◌, ◌≤◌, ◌-◌, Ordering}
use Prim.Native.String
use Prim.Native.String.{String}
use mathlib.Core.Path.{◌≡◌, refl}
use mathlib.Core.Bool.{Bool, true, false, ◌&&◌, ◌||◌}
use mathlib.Core.List.{List, [], ◌∷◌, ◌++◌}
use native.Mathlib.Omega.{arith}
use text.Mathlib.Text.{◌==◌}
use text.Mathlib.TextEquality.{eq_iff}

module _ {ℓ} {A : Type ℓ} where
  abbrev pub length : List A → ℕ
  length [] = 0
  length (x ∷ xs) = suc (length xs)

  -- `not xs`
  abbrev pub is_empty : List A → Bool
  is_empty [] = true
  is_empty (x ∷ xs) = false

  abbrev pub drop : ℕ → List A → List A
  drop zero xs = xs
  drop (suc n) [] = []
  drop (suc n) (x ∷ xs) = drop n xs

  pub length-append : (xs ys : List A) → length (xs ++ ys) ≡ length xs + length ys
  length-append [] ys = omega arith
  length-append (x ∷ xs) ys = omega (arith, length-append xs ys)

  pub length-drop : (n : ℕ) (xs : List A) → length (drop n xs) ≡ length xs - n
  length-drop zero xs = omega arith
  length-drop (suc n) [] = omega arith
  length-drop (suc n) (x ∷ xs) = omega (arith, length-drop n xs)

  -- `xs[-n:]`, for a positive n
  unfoldable pub last_n : ℕ → List A → List A
  last_n n xs = drop (length xs - n) xs

  pub length-last_n : (n : ℕ) (xs : List A) → length (last_n n xs) ≤ n
  unfolding last_n
  length-last_n n xs = omega (arith, length-drop (length xs - n) xs)

  abbrev pub all : (A → Bool) → List A → Bool
  all p [] = true
  all p (x ∷ xs) = p x && all p xs

  abbrev pub any : (A → Bool) → List A → Bool
  any p [] = false
  any p (x ∷ xs) = p x || any p xs

  -- A predicate on every element, by recursion.
  abbrev pub All {κ} : (A → Type κ) → List A → Type κ
  All P [] = Unit
  All P (x ∷ xs) = P x × All P xs

-- `s in xs`
unfoldable pub member : String → List String → Bool
member s [] = false
member s (x ∷ xs) = s == x || member s xs

unfoldable pub texts_eq : List String → List String → Bool
texts_eq [] [] = true
texts_eq (x ∷ xs) (y ∷ ys) = x == y && texts_eq xs ys
texts_eq _ _ = false

pub texts_eq→eq : (xs ys : List String) → texts_eq xs ys ≡ true → xs ≡ ys
unfolding texts_eq
texts_eq→eq [] [] h = refl
texts_eq→eq [] (y ∷ ys) h = cc
texts_eq→eq (x ∷ xs) [] h = cc
texts_eq→eq (x ∷ xs) (y ∷ ys) h = ground (arith, eq_iff x y, texts_eq→eq xs ys)

-- `sorted(set(xs))`: insertion that drops a repeated element, in code point order.
unfoldable pub insert_sorted : String → List String → List String
insert_sorted s [] = s ∷ []
insert_sorted s (x ∷ xs) = elim (String.compare s x) [
  | Ordering.lt ↦ s ∷ x ∷ xs
  | Ordering.eq ↦ x ∷ xs
  | Ordering.gt ↦ x ∷ insert_sorted s xs
]

unfoldable pub sorted_set : List String → List String
unfolding insert_sorted
sorted_set [] = []
sorted_set (x ∷ xs) = insert_sorted x (sorted_set xs)

-- `required.issubset(available)`
unfoldable pub subset : List String → List String → Bool
unfolding member
subset [] ys = true
subset (x ∷ xs) ys = member x ys && subset xs ys
