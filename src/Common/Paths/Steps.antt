-- ===== src/Common/Paths/Steps.antt =====
-- Walks along the names of a path, and the texts of stacks of names.
use Prim.Native.String.{String, ◌++◌}
use mathlib.Core.Path.{◌≡◌, refl, ap, ◌∙◌}
use mathlib.Core.Bool.{Bool, true, not, ◌||◌}
use mathlib.Core.List.{List, [], ◌∷◌, ◌++◌ as ◌++ₗ◌}
use native.Mathlib.Omega.{arith}
use text.Mathlib.TextEquality.{eq_iff}
use text.Mathlib.TextLemmas.{append_assoc}
use forge_ci.Common.Tests.{◌==◌}
use forge_ci.Common.Lists.{All}
use forge_ci.Common.Paths.{slash, split, listed, down, enter, walk}
use forge_ci.Common.Paths.Pieces.{IsWhole, split-slash, split-whole}

-- A name that leads down.
abbrev pub is_plain : String → Bool
is_plain s = not (s == "" || s == "." || s == "..")

abbrev pub IsPlain : String → Type 0
IsPlain s = is_plain s ≡ true

pub walk-++ :
    (rooted : Bool) (xs ys stack : List String)
    → walk rooted (xs ++ₗ ys) stack ≡ walk rooted ys (walk rooted xs stack)
unfolding walk
walk-++ rooted [] ys stack = refl
walk-++ rooted (x ∷ xs) ys stack = walk-++ rooted xs ys (enter rooted x stack)

pub enter_plain :
    (rooted : Bool) (s : String) (stack : List String)
    → IsPlain s
    → enter rooted s stack ≡ s ∷ stack
unfolding enter
enter_plain rooted s stack h = ground (arith, eq_iff s "", eq_iff s ".", eq_iff s "..")

pub walk-listed :
    (rooted : Bool) (names stack : List String)
    → All IsPlain names
    → walk rooted (listed names) stack ≡ names ++ₗ stack
unfolding walk
walk-listed rooted [] stack all = refl
walk-listed rooted (x ∷ below) stack all =
    walk-++ rooted (listed below) (x ∷ []) stack
    ∙ ap (enter rooted x) (walk-listed rooted below stack all.1)
    ∙ enter_plain rooted x (below ++ₗ stack) all.0

pub down-++ :
    (x d : String) (below base : List String)
    → down x (below ++ₗ d ∷ base) ≡ down d base ++ ("/" ++ down x below)
unfolding down
down-++ x d [] base = refl
down-++ x d (y ∷ below) base =
    ap (λ s. s ++ ("/" ++ x)) (down-++ y d below base)
    ∙ append_assoc (down d base) ("/" ++ down y below) ("/" ++ x)
    ∙ ap (λ s. down d base ++ s) (append_assoc "/" (down y below) ("/" ++ x))

-- What is written after a text stands in its top name.
pub down-after : (x e : String) (below : List String) → down x below ++ e ≡ down (x ++ e) below
unfolding down
down-after x e [] = refl
down-after x e (y ∷ below) =
    append_assoc (down y below) ("/" ++ x) e ∙ ap (λ s. down y below ++ s) (append_assoc "/" x e)

pub split-down :
    (x : String) (below : List String)
    → All (IsWhole slash) (x ∷ below)
    → split slash (down x below) ≡ listed (x ∷ below)
unfolding down
split-down x [] all = split-whole slash x all.0
split-down x (y ∷ below) all =
    split-slash (down y below) x
    ∙ ap (λ l. l ++ₗ split slash x) (split-down y below all.1)
    ∙ ap (λ l. listed (y ∷ below) ++ₗ l) (split-whole slash x all.0)
