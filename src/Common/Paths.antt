-- ===== src/Common/Paths.antt =====
-- Go's `strings.Split` at one character, and `path.Clean`, `filepath.Join` and `filepath.Rel` on a
-- system whose separator is a slash. A cleaned path is a stack of names, the last one on top.
pub mod Pieces
pub mod Steps
pub mod Normal
pub mod Joined
use Prim.Native.Char.{Char, code}
use Prim.Native.Nat.{ℕ}
use Prim.Native.String.{String, ◌++◌}
use mathlib.Core.Path.{◌≡◌, refl}
use mathlib.Core.Bool.{Bool, true, false, not, ◌||◌}
use mathlib.Core.Option.{Option, none, some}
use mathlib.Core.List.{List, [], ◌∷◌, ◌++◌ as ◌++ₗ◌}
use forge_ci.Common.Tests.{nat_eq, ◌==◌, if◌then◌else◌}

abbrev pub slash : ℕ
slash = b'/'

abbrev pub grow : Char → List String → List String
grow c [] = String.◌∷◌ c "" ∷ []
grow c (s ∷ ss) = String.◌∷◌ c s ∷ ss

-- `strings.Split`.
unfoldable pub split : ℕ → String → List String
split k String.[] = "" ∷ []
split k (String.◌∷◌ c s) =
    let rest = split k s in if nat_eq (code c) k then "" ∷ rest else grow c rest

-- `strings.Join` with a slash, of a first text and the others.
unfoldable pub glued : String → List String → String
glued a [] = a
glued a (b ∷ bs) = a ++ ("/" ++ glued b bs)

unfoldable pub is_rooted : String → Bool
is_rooted String.[] = false
is_rooted (String.◌∷◌ c s) = nat_eq (code c) slash

abbrev pub up : Bool → List String → List String
up rooted [] = if rooted then [] else ".." ∷ []
up rooted (t ∷ below) = if t == ".." then ".." ∷ t ∷ below else below

-- One piece of a path.
unfoldable pub enter : Bool → String → List String → List String
enter rooted s stack =
    if s == "" || s == "." then stack else if s == ".." then up rooted stack else s ∷ stack

unfoldable pub walk : Bool → List String → List String → List String
unfolding enter
walk rooted [] stack = stack
walk rooted (s ∷ ss) stack = walk rooted ss (enter rooted s stack)

-- A stack with a top, from its bottom.
unfoldable pub down : String → List String → String
down x [] = x
down x (y ∷ below) = down y below ++ ("/" ++ x)

unfoldable pub render : Bool → List String → String
unfolding down
render true [] = "/"
render true (x ∷ below) = "/" ++ down x below
render false [] = "."
render false (x ∷ below) = down x below

unfoldable pub stack_of : String → List String
unfolding walk split is_rooted
stack_of path = walk (is_rooted path) (split slash path) []

-- `path.Clean`, and `filepath.Clean`.
unfoldable pub clean : String → String
unfolding render stack_of
clean path = render (is_rooted path) (stack_of path)

-- `filepath.Join`.
unfoldable pub join : List String → String
unfolding clean glued
join [] = ""
join (e ∷ es) = let rest = join es in if e == "" then rest else clean (glued e es)

-- A stack from its bottom, as a list.
abbrev pub listed : List String → List String
listed [] = []
listed (x ∷ below) = listed below ++ₗ x ∷ []

abbrev pub parents : List String → List String
parents [] = []
parents (x ∷ xs) = ".." ∷ parents xs

-- What is left of two lists of names when they differ or one ends.
unfoldable pub rel_parts : List String → List String → Option String
unfolding glued
rel_parts [] [] = some "."
rel_parts [] (t ∷ ts) = some (glued t ts)
rel_parts (b ∷ bs) [] = if b == ".." then none else some (glued ".." (parents bs))
rel_parts (b ∷ bs) (t ∷ ts) =
    let rest = rel_parts bs ts in
    if b == t then rest else if b == ".." then none else some (glued ".." (parents bs ++ₗ t ∷ ts))

-- The names of a target: a dot where it is the directory itself.
abbrev pub target_parts : Bool → List String → List String
target_parts false [] = "." ∷ []
target_parts rooted stack = listed stack

abbrev both : Bool → Bool → Bool
both true b = b
both false b = not b

-- `filepath.Rel`.
unfoldable pub rel : String → String → Option String
unfolding rel_parts stack_of clean
rel base target =
    if clean base == clean target
    then some "."
    else if both (is_rooted base) (is_rooted target)
    then rel_parts (listed (stack_of base)) (target_parts (is_rooted target) (stack_of target))
    else none

clean_up : clean "/../a/./b//../c/" ≡ "/a/c"
unfolding clean
clean_up = refl

clean_below : clean "../../x/.." ≡ "../.."
unfolding clean
clean_below = refl

join_three : join ("state" ∷ "" ∷ "/runs/1.json" ∷ []) ≡ "state/runs/1.json"
unfolding join
join_three = refl

rel_up : rel "a/b" "a/c/d" ≡ some "../c/d"
unfolding rel
rel_up = refl

abbrev last_of : String → List String → String
last_of found [] = found
last_of found (s ∷ ss) = if s == "" then last_of found ss else last_of s ss

-- `path.Base`.
unfoldable pub base : String → String
unfolding split
base path = if path == "" then "." else last_of "/" (split slash path)

base-below : base "org/repo/" ≡ "repo"
unfolding base
base-below = refl
