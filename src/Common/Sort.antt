-- ===== src/Common/Sort.antt =====
-- `sort.Strings`: insertion by the order of the texts.
use Prim.Native.Nat.{Ordering}
use Prim.Native.String.{String, compare}
use mathlib.Core.Path.{◌≡◌, refl}
use mathlib.Core.Bool.{Bool, true, false, ◌||◌}
use mathlib.Core.List.{List, [], ◌∷◌, Perm}
use mathlib.Core.List.Perm
use native.Mathlib.Omega.{arith}
use mathlib.Core.Logic.{◌≢◌}
use forge_ci.Common.Tests.{if◌then◌else◌, ◌==◌}
use forge_ci.Common.Sets.{member}

-- Whether the first text stands before the second, or is equal to it.
abbrev pub le_text : String → String → Bool
le_text s t = elim (compare s t) [ Ordering.gt ↦ false | _ ↦ true ]

module _ {ℓ} {A : Type ℓ} (le : A → A → Bool) where
  abbrev pub insert_by : A → List A → List A
  insert_by a [] = a ∷ []
  insert_by a (x ∷ xs) = let rest = insert_by a xs in if le a x then a ∷ x ∷ xs else x ∷ rest

  abbrev pub sort_by : List A → List A
  sort_by [] = []
  sort_by (x ∷ xs) = insert_by x (sort_by xs)

module _ {ℓ} {A : Type ℓ} (le : A → A → Bool) where
  pub insert_by-perm : (a : A) (xs : List A) → Perm (insert_by le a xs) (a ∷ xs)
  insert_by-perm a [] = Perm.refl (a ∷ [])
  insert_by-perm a (x ∷ xs) =
      let later = Perm.trans (Perm.cons x (insert_by-perm a xs)) (Perm.swap a x xs) in
      let here = Perm.refl (a ∷ x ∷ xs) in ground (arith, later, here)

  pub sort_by-perm : (xs : List A) → Perm (sort_by le xs) xs
  sort_by-perm [] = Perm.refl []
  sort_by-perm (x ∷ xs) =
      Perm.trans (insert_by-perm x (sort_by le xs)) (Perm.cons x (sort_by-perm xs))

abbrev pub sort_strings : List String → List String
sort_strings = sort_by le_text

pub member-insert_by :
    (le : String → String → Bool) (a x : String) (xs : List String)
    → member a (insert_by le x xs) ≡ (x == a || member a xs)
member-insert_by le a x [] = refl
member-insert_by le a x (y ∷ ys) = ground (arith, member-insert_by le a x ys)

pub member-sort_strings : (a : String) (xs : List String) → member a (sort_strings xs) ≡ member a xs
member-sort_strings a [] = refl
member-sort_strings a (x ∷ xs) =
    ground (arith, member-insert_by le_text a x (sort_strings xs), member-sort_strings a xs)

pub sort_strings-ne-nil : (x : String) (xs : List String) → sort_strings (x ∷ xs) ≢ []
sort_strings-ne-nil x xs = insert_by-ne-nil (sort_strings xs)
  where
    insert_by-ne-nil : (ys : List String) → insert_by le_text x ys ≢ []
    insert_by-ne-nil [] = cc
    insert_by-ne-nil (y ∷ ys) = ground arith
