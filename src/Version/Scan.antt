-- ===== src/Version/Scan.antt =====
-- The tag's regular expression (`SemverTag` of pkg/citypes/citypes.go), `strconv.Atoi`, and the
-- reading of a cap in internal/controller/artifactcontroller/version.go, over the bytes of a text.
use forge_ci.Common.{
  ℕ, zero, suc, ◌-◌, ◌^◌, Bool, true, false, ◌&&◌, ◌||◌, List, [], ◌∷◌, Option, none, some, leb,
  nat_eq, if◌then◌else◌, every,
}
use forge_ci.Common.Digits.{read_digits}
use forge_ci.Types.{ℤ, pos, negsuc}

abbrev pub max_int : ℕ
max_int = 2 ^ 63 - 1

-- The groups of a tag that matches.
pub record Semver : Type 0 where
  pub major : ℕ
  pub minor : ℕ
  pub patch : ℕ
  pub prerelease : Bool

infixl 5 ◌>>=◌
abbrev pub ◌>>=◌ : {A B : Type 0} → Option A → (A → Option B) → Option B
none >>= f = none
some a >>= f = f a

abbrev pub is_digit : ℕ → Bool
is_digit c = leb b'0' c && leb c b'9'

-- `0|[1-9]\d*`.
unfoldable pub read_number : List ℕ → Option (ℕ × List ℕ)
read_number [] = none
read_number (c ∷ cs) =
    if nat_eq c b'0'
    then some (0, cs)
    else if is_digit c
    then some (read_digits 0 (c ∷ cs))
    else none

unfoldable pub expect : ℕ → List ℕ → Option (List ℕ)
expect k [] = none
expect k (c ∷ cs) = if nat_eq c k then some cs else none

-- `[0-9A-Za-z.-]`.
abbrev is_tag_char : ℕ → Bool
is_tag_char c =
    is_digit c
    || (leb b'A' c && leb c b'Z')
    || (leb b'a' c && leb c b'z')
    || nat_eq c b'.'
    || nat_eq c b'-'

-- `(-[0-9A-Za-z.-]+)?$`.
unfoldable pub read_prerelease : List ℕ → Option Bool
read_prerelease [] = some false
read_prerelease (c ∷ []) = none
read_prerelease (c ∷ d ∷ cs) =
    if nat_eq c b'-' && every is_tag_char (d ∷ cs) then some true else none

unfoldable pub parse_semver : List ℕ → Option Semver
parse_semver tag = do
  rest ← expect b'v' tag
  (major, rest) ← read_number rest
  rest ← expect b'.' rest
  (minor, rest) ← read_number rest
  rest ← expect b'.' rest
  (patch, rest) ← read_number rest
  prerelease ← read_prerelease rest
  some (record { major = major; minor = minor; patch = patch; prerelease = prerelease })

-- A text of one or more digits.
unfoldable pub atoi_nat : List ℕ → Option ℕ
atoi_nat [] = none
atoi_nat (c ∷ cs) = if every is_digit (c ∷ cs) then some (read_digits 0 (c ∷ cs)).0 else none

abbrev in_range : Option ℕ → Option ℤ
in_range none = none
in_range (some n) = if leb n max_int then some (pos n) else none

abbrev negated : Option ℕ → Option ℤ
negated none = none
negated (some zero) = some (pos 0)
negated (some (suc n)) = if leb n max_int then some (negsuc n) else none

-- `strconv.Atoi`.
unfoldable pub atoi : List ℕ → Option ℤ
unfolding atoi_nat
atoi [] = none
atoi (c ∷ cs) =
    if nat_eq c b'-'
    then negated (atoi_nat cs)
    else if nat_eq c b'+'
    then in_range (atoi_nat cs)
    else in_range (atoi_nat (c ∷ cs))

-- `strings.Split(text, ".")`, the part before the first dot apart.
unfoldable pub split_dots : List ℕ → List ℕ × List (List ℕ)
split_dots [] = ([], [])
split_dots (c ∷ cs) =
    let (part, parts) = split_dots cs in
    if nat_eq c b'.' then ([], part ∷ parts) else (c ∷ part, parts)

unfoldable pub cap_parts : List ℕ × List (List ℕ) → Option (ℤ × ℤ)
cap_parts (major, []) = do m ← atoi major; some (m, negsuc 0)
cap_parts (major, minor ∷ []) = do m ← atoi major; n ← atoi minor; some (m, n)
cap_parts (major, _ ∷ _ ∷ _) = none

unfoldable pub parse_cap_text : List ℕ → Option (ℤ × ℤ)
parse_cap_text cap = do rest ← expect b'v' cap; cap_parts (split_dots rest)
