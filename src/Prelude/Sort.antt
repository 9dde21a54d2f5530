-- ===== src/Prelude/Sort.antt =====
-- Python's stable `sort`: by a key of natural numbers, downwards, and of texts, upwards.
use Prim.Native.Nat.{ℕ, Ordering}
use Prim.Native.String.{String, compare}
use mathlib.Core.Path.{◌≡◌, refl}
use mathlib.Core.Bool.{Bool, true, false}
use mathlib.Core.Option.{Option, none, some}
use mathlib.Core.List.{List, [], ◌∷◌}
use native.Mathlib.Omega.{arith}
use openclaw_observatory.Prelude.Tests.{ltb, if◌then◌else◌}
use openclaw_observatory.Prelude.Lists.{head?}

module _ {ℓ} {A : Type ℓ} (key : A → ℕ) where
  -- `a` stood before the elements of the list, so it also goes before those of an equal key.
  unfoldable pub insert_desc : A → List A → List A
  insert_desc a [] = a ∷ []
  insert_desc a (x ∷ xs) = if ltb (key a) (key x) then x ∷ insert_desc a xs else a ∷ x ∷ xs

  -- `xs.sort(key=key, reverse=True)`
  unfoldable pub sort_desc : List A → List A
  unfolding insert_desc
  sort_desc [] = []
  sort_desc (x ∷ xs) = insert_desc x (sort_desc xs)

  -- The first of the elements with the greatest key.
  unfoldable pub newest : List A → Option A
  newest [] = none
  newest (x ∷ xs) = elim (newest xs) [
    | none ↦ some x
    | some y ↦ if ltb (key x) (key y) then some y else some x
  ]

  head?-insert_desc :
      (a : A) (xs : List A)
      → head? (insert_desc a xs) ≡ elim (head? xs) [
        | none ↦ some a
        | some y ↦ if ltb (key a) (key y) then some y else some a
      ]
  unfolding insert_desc
  head?-insert_desc a [] = refl
  head?-insert_desc a (x ∷ xs) = ground arith

  -- The head of the sorted list is the newest element.
  pub head?-sort_desc : (xs : List A) → head? (sort_desc xs) ≡ newest xs
  unfolding sort_desc newest
  head?-sort_desc [] = refl
  head?-sort_desc (x ∷ xs) = ground (arith, head?-insert_desc x (sort_desc xs), head?-sort_desc xs)

-- `a <= b` on `str`, which orders by code points
abbrev pub str_leb : String → String → Bool
str_leb a b = elim (compare a b) [ Ordering.gt ↦ false | _ ↦ true ]

unfoldable pub insert_str : String → List String → List String
insert_str a [] = a ∷ []
insert_str a (x ∷ xs) = if str_leb a x then a ∷ x ∷ xs else x ∷ insert_str a xs

-- `sorted(xs)`
unfoldable pub sorted : List String → List String
unfolding insert_str
sorted [] = []
sorted (x ∷ xs) = insert_str x (sorted xs)
