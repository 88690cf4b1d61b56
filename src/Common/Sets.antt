-- ===== src/Common/Sets.antt =====
-- Go's `map[string]bool` and `map[string]V`, as lists of keys and of pairs. An assignment goes to
-- the front, and a lookup takes the first pair of its key: the last assignment.
use Prim.Native.String.{String}
use mathlib.Core.Path.{◌≡◌, refl, subst}
use mathlib.Core.Logic.{inl, inr}
use mathlib.Core.Bool.{Bool, true, false, not, ◌||◌, false≢true}
use mathlib.Core.Option.{Option, none, some}
use mathlib.Core.List.{List, [], ◌∷◌, ◌++◌}
use native.Mathlib.Omega.{arith}
use text.Mathlib.TextEquality.{eq_iff}
use forge_ci.Common.Tests.{◌==◌, if◌then◌else◌, Bool-cases, eq_of_==, ==_refl}
use forge_ci.Common.Lists.{select, All}

abbrev pub member : String → List String → Bool
member a [] = false
member a (x ∷ xs) = x == a || member a xs

-- The keys of a set built from a list, each once.
abbrev pub set_of : List String → List String
set_of [] = []
set_of (x ∷ xs) = let rest = set_of xs in if member x rest then rest else x ∷ rest

abbrev pub remove : String → List String → List String
remove a = select (λ x. not (x == a))

module _ {ℓ} {V : Type ℓ} where
  abbrev pub lookup : String → List (String × V) → Option V
  lookup k [] = none
  lookup k ((j, v) ∷ m) = if j == k then some v else lookup k m

  abbrev pub lookup_or : V → String → List (String × V) → V
  lookup_or d k [] = d
  lookup_or d k ((j, v) ∷ m) = if j == k then v else lookup_or d k m

  abbrev pub has_key : String → List (String × V) → Bool
  has_key k [] = false
  has_key k ((j, v) ∷ m) = j == k || has_key k m

pub member-append :
    (a : String) (xs ys : List String) → member a (xs ++ ys) ≡ (member a xs || member a ys)
member-append a [] ys = refl
member-append a (x ∷ xs) ys = ground (arith, member-append a xs ys)

pub member-set_of : (a : String) (xs : List String) → member a (set_of xs) ≡ member a xs
member-set_of a [] = refl
member-set_of a (x ∷ xs) = ground (arith, member-set_of a xs, member-set_of x xs, eq_iff x a)

pub member-select :
    (p : String → Bool) (a : String) (xs : List String)
    → member a (select p xs) ≡ (if p a then member a xs else false)
member-select p a [] = ground arith
member-select p a (x ∷ xs) = ground (arith, member-select p a xs, eq_iff x a)

pub All-member {κ} :
    (P : String → Type κ) (xs : List String) → ((a : String) → member a xs ≡ true → P a) → All P xs
All-member P [] h = tt
All-member P (x ∷ xs) h =
    (h x (ground (arith, ==_refl x)), All-member P xs (λ a m. h a (ground (arith, m))))

pub All-at {κ} :
    (P : String → Type κ) (xs : List String) → All P xs → (a : String) → member a xs ≡ true → P a
All-at P [] h a m = absurd (false≢true m)
All-at P (x ∷ xs) h a m = elim (Bool-cases (x == a)) [
  | inl e ↦ subst P (eq_of_== e) h.0
  | inr e ↦ All-at P xs h.1 a (ground arith)
]
