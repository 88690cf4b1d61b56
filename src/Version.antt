-- ===== src/Version.antt =====
-- internal/controller/artifactcontroller/version.go: which version a release gets. `int` has 64 bits,
-- and its overflow is written out (`next_int`). `strconv.Atoi` and the tag's regular expression are
-- scanners over the bytes of the text.
pub mod Scan
pub mod RoundTrip
pub mod Forward
pub mod Classify
mod Tests
use forge_ci.Common.{
  String, ℕ, zero, suc, ◌+◌, ◌-◌, ◌^◌, Bool, true, false, not, ◌&&◌, ◌||◌, List, [], ◌∷◌, Option,
  none, some, Result, ok, err, ◌>>=◌, ◌==◌, ltb, leb, nat_eq, if◌then◌else◌, ◌++ₛ◌,
}
use forge_ci.Common.Digits.{codes, print_nat, read_digits}
use forge_ci.Common.Text.{trim_space, is_blank}
use forge_ci.Types.{ℤ, pos, negsuc}
use Scan.{Semver, parse_semver, atoi_nat, max_int, parse_cap_text}

-- `Level`: none, patch, minor and major are 0, 1, 2 and 3.
abbrev pub Level : Type 0
Level = ℕ

abbrev pub level_none : Level
level_none = 0

abbrev pub level_patch : Level
level_patch = 1

abbrev pub level_minor : Level
level_minor = 2

abbrev pub level_major : Level
level_major = 3

-- `Level.String`.
unfoldable pub level_text : Level → String
level_text level =
    if nat_eq level level_major
    then "major"
    else if nat_eq level level_minor
    then "minor"
    else if nat_eq level level_patch
    then "patch"
    else "none"

unfoldable pub level_of : String → Level
level_of name =
    if name == "major"
    then level_major
    else if name == "minor"
    then level_minor
    else if name == "patch"
    then level_patch
    else level_none

unfoldable pub tag_name : String → String → String
tag_name prefix version = if prefix == "" then version else prefix ++ₛ "-" ++ₛ version

-- `ErrPrevious` in its three uses, and `ErrVersion`.
pub data VersionError : Type 0 where
  bad_previous : String → VersionError
  past_cap : (previous cap : String) → VersionError
  no_fit : (cap : String) → VersionError
  bad_cap : String → VersionError

pub record Triple : Type 0 where
  pub major : ℤ
  pub minor : ℤ
  pub patch : ℤ

-- `n + 1` on a 64-bit `int` that is not negative.
unfoldable pub next_int : ℕ → ℤ
next_int n = if nat_eq n max_int then negsuc max_int else pos (n + 1)

unfoldable pub apply : ℕ → ℕ → ℕ → Level → Triple
apply major minor patch level =
    if nat_eq level level_major
    then record { major = next_int major; minor = pos 0; patch = pos 0 }
    else if nat_eq level level_minor
    then record { major = pos major; minor = next_int minor; patch = pos 0 }
    else record { major = pos major; minor = pos minor; patch = next_int patch }

-- `%d`.
unfoldable pub print_int : ℤ → String
print_int (pos n) = print_nat n
print_int (negsuc n) = "-" ++ₛ print_nat (n + 1)

unfoldable pub format : Triple → String
unfolding print_int
format t =
    "v" ++ₛ (print_int t.major ++ₛ ("." ++ₛ (print_int t.minor ++ₛ ("." ++ₛ print_int t.patch))))

-- `a > b`.
unfoldable pub gt_int : ℤ → ℤ → Bool
gt_int (pos a) (pos b) = ltb b a
gt_int (pos a) (negsuc b) = true
gt_int (negsuc a) (pos b) = false
gt_int (negsuc a) (negsuc b) = ltb a b

unfoldable pub eq_int : ℤ → ℤ → Bool
eq_int (pos a) (pos b) = nat_eq a b
eq_int (pos a) (negsuc b) = false
eq_int (negsuc a) (pos b) = false
eq_int (negsuc a) (negsuc b) = nat_eq a b

-- What `parseCap` reads off a cap that is not blank.
pub record Cap : Type 0 where
  pub major : ℤ
  pub minor : ℤ

unfoldable pub parse_cap : String → Result VersionError (Option Cap)
parse_cap cap_to =
    let trimmed = trim_space cap_to in
    if trimmed == "" then ok none else elim (parse_cap_text (codes trimmed)) [
      | none ↦ err (bad_cap trimmed)
      | some (major, minor) ↦ ok (some (record { major = major; minor = minor }))
    ]

-- `capMinor >= 0`.
unfoldable pub is_natural : ℤ → Bool
is_natural (pos n) = true
is_natural (negsuc n) = false

unfoldable pub within_cap : Triple → Cap → Bool
unfolding gt_int eq_int is_natural
within_cap t cap =
    if gt_int t.major cap.major
    then false
    else not (is_natural cap.minor && eq_int t.major cap.major && gt_int t.minor cap.minor)

unfoldable pub fits : Triple → Option Cap → Bool
fits t none = true
fits t (some cap) = within_cap t cap

-- The test on the previous version.
unfoldable pub is_past : ℕ → ℕ → Option Cap → Bool
unfolding gt_int eq_int is_natural
is_past major minor none = false
is_past major minor (some cap) =
    gt_int (pos major) cap.major
    || (eq_int cap.major (pos major) && is_natural cap.minor && gt_int (pos minor) cap.minor)

-- The `for` loop of `Bump`. It is entered at a patch at least, so its first clause is not reached.
unfoldable pub bump_loop : Semver → Option Cap → String → Level → Result VersionError Triple
bump_loop v cap cap_to zero = err (no_fit cap_to)
bump_loop v cap cap_to (suc level) =
    let next = apply v.major v.minor v.patch (suc level) in
    let lower = bump_loop v cap cap_to level in
    if fits next cap then ok next else if nat_eq level 0 then err (no_fit cap_to) else lower

-- The rest of `Bump`, for a previous version that is a tag.
unfoldable pub bump_from : Semver → String → Level → String → Result VersionError String
bump_from v previous level cap_to =
    if ltb max_int v.major || ltb max_int v.minor || ltb max_int v.patch
    then err (bad_previous previous)
    else if v.prerelease
    then ok (format (record { major = pos v.major; minor = pos v.minor; patch = pos v.patch }))
    else do
      cap ← parse_cap cap_to
      if is_past v.major v.minor cap then err (past_cap previous cap_to) else do
        next ← bump_loop v cap cap_to (if ltb level level_patch then level_patch else level)
        ok (format next)

unfoldable pub bump : String → Level → String → Result VersionError String
bump previous level cap_to =
    if is_blank previous then ok "v0.1.0" else elim (parse_semver (codes previous)) [
      | none ↦ err (bad_previous previous)
      | some v ↦ bump_from v previous level cap_to
    ]
