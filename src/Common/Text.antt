-- ===== src/Common/Text.antt =====
-- The functions of Go's `strings` package that the program calls.
use Prim.Native.Char.{code}
use forge_ci.Common.Tests.{leb, nat_eq, ◌==◌, if◌then◌else◌}
use Prim.Native.Nat.{ℕ, zero, suc}
use Prim.Native.String.{String, ◌++◌}
use mathlib.Core.Bool.{Bool, true, ◌&&◌, ◌||◌}
use mathlib.Core.Path.{◌≡◌, refl}
use mathlib.Core.List.{List, [], ◌∷◌}
use mathlib.Core.Option.{Option, none, some}
use text.Mathlib.Text.{starts_with}

-- `unicode.IsSpace`.
unfoldable pub is_space : ℕ → Bool
is_space c =
    (leb 9 c && leb c 13)
    || nat_eq c 32
    || nat_eq c 0x85
    || nat_eq c 0xA0
    || nat_eq c 0x1680
    || (leb 0x2000 c && leb c 0x200a)
    || nat_eq c 0x2028
    || nat_eq c 0x2029
    || nat_eq c 0x202f
    || nat_eq c 0x205f
    || nat_eq c 0x3000

unfoldable pub trim_left : String → String
unfolding is_space
trim_left String.[] = ""
trim_left (String.◌∷◌ c s) =
    let rest = trim_left s in if is_space (code c) then rest else String.◌∷◌ c s

-- A text of spaces alone trims to nothing at its right end.
unfoldable pub trim_right : String → String
unfolding is_space
trim_right String.[] = ""
trim_right (String.◌∷◌ c s) =
    let rest = trim_right s in if rest == "" && is_space (code c) then "" else String.◌∷◌ c rest

-- `strings.TrimSpace`.
unfoldable pub trim_space : String → String
unfolding trim_left trim_right
trim_space s = trim_right (trim_left s)

abbrev pub is_blank : String → Bool
is_blank s = trim_space s == ""

-- `strings.Contains`.
unfoldable pub contains : String → String → Bool
contains String.[] t = t == ""
contains (String.◌∷◌ c s) t = starts_with (String.◌∷◌ c s) t || contains s t

-- `strings.HasSuffix`.
unfoldable pub has_suffix : String → String → Bool
has_suffix String.[] t = t == ""
has_suffix (String.◌∷◌ c s) t = String.◌∷◌ c s == t || has_suffix s t

-- `strings.TrimSuffix`.
unfoldable pub trim_suffix : String → String → String
trim_suffix String.[] t = ""
trim_suffix (String.◌∷◌ c s) t =
    let rest = trim_suffix s t in if String.◌∷◌ c s == t then "" else String.◌∷◌ c rest

-- `strings.Join`.
unfoldable pub join_with : String → List String → String
join_with separator [] = ""
join_with separator (s ∷ ss) = elim ss [
  | [] ↦ s
  | _ ∷ _ ↦ s ++ (separator ++ join_with separator ss)
]

-- The first bytes of a text of ASCII characters.
unfoldable pub first_bytes : ℕ → String → String
first_bytes zero s = ""
first_bytes (suc n) String.[] = ""
first_bytes (suc n) (String.◌∷◌ c s) = String.◌∷◌ c (first_bytes n s)

-- `strings.CutPrefix` by one character.
abbrev pub cut_char : ℕ → String → Option String
cut_char k String.[] = none
cut_char k (String.◌∷◌ c s) = if nat_eq (code c) k then some s else none

-- `strings.Cut` at one character: what stands before it and after it.
unfoldable pub cut : ℕ → String → Option (String × String)
cut k String.[] = none
cut k (String.◌∷◌ c s) =
    let rest = cut k s in
    if nat_eq (code c) k
    then some ("", s)
    else elim rest [ none ↦ none | some (before, after) ↦ some (String.◌∷◌ c before, after) ]

trim_space_words : trim_space " ready\n" ≡ "ready"
unfolding trim_space
trim_space_words = refl

contains_word : contains "feat!: new" "!:" ≡ true
unfolding contains
contains_word = refl

-- `%q` of a text of printable characters: quotes and backslashes take a backslash.
quoted : String → String
quoted String.[] = ""
quoted (String.◌∷◌ c s) =
    if nat_eq (code c) b'"' || nat_eq (code c) b'\\'
    then "\\" ++ String.◌∷◌ c (quoted s)
    else String.◌∷◌ c (quoted s)

unfoldable pub quote : String → String
unfolding quoted
quote s = "\"" ++ quoted s ++ "\""

quote_word : quote "a\"b" ≡ "\"a\\\"b\""
unfolding quote
quote_word = refl

trim_suffix-name : trim_suffix "runs/1.json" ".json" ≡ "runs/1"
unfolding trim_suffix
trim_suffix-name = refl

join_with-commas : join_with ", " ("a" ∷ "b" ∷ "c" ∷ []) ≡ "a, b, c"
unfolding join_with
join_with-commas = refl
