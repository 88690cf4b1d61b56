-- ===== src/Version/Classify.antt =====
-- internal/controller/artifactcontroller/version.go: the level that a commit subject asks for.
pub mod Longest
pub mod Winner
use Prim.Native.String.{len}
use forge_ci.Common.{
  String, ℕ, suc, Bool, true, false, not, ◌&&◌, ◌||◌, List, [], ◌∷◌, Option, none, some, ◌==◌, ltb,
  if◌then◌else◌,
}
use forge_ci.Common.Text.{trim_space, contains}
use text.Mathlib.Text.{starts_with}
use forge_ci.Version.{Level, level_none, level_patch, level_minor, level_major, level_of}

-- pkg/config/config.go `Semantic`.
pub record Semantic : Type 0 where
  pub major : List String
  pub minor : List String
  pub patch : List String
  pub ignore : List String
  pub unmatched : String

-- A token that is not empty and stands in the subject.
unfoldable pub claims : String → String → Bool
claims subject token = not (token == "") && contains subject token

-- `best` and `bestLen`, the length raised by one: none is the code's -1.
pub record Best : Type 0 where
  pub level : Level
  pub length : ℕ

abbrev pub unclaimed_yet : Best
unclaimed_yet = record { level = level_none; length = 0 }

-- The body of the loop of `consider`.
unfoldable pub improve : String → Level → String → Best → Best
improve subject level token best =
    if claims subject token && ltb best.length (suc (len token))
    then record { level = level; length = suc (len token) }
    else best

-- `consider`.
unfoldable pub consider : String → Level → List String → Best → Best
consider subject level [] best = best
consider subject level (token ∷ tokens) best =
    consider subject level tokens (improve subject level token best)

unfoldable pub is_self : String → String → Bool
is_self prefix subject = not (prefix == "") && starts_with subject prefix

-- What the four lists say of a subject.
unfoldable pub best_of : Semantic → String → Best
best_of vocab subject = consider subject level_major vocab.major (
    consider subject level_minor vocab.minor (
      consider subject level_patch vocab.patch
        (consider subject level_none vocab.ignore unclaimed_yet)))

unfoldable pub classify : Semantic → String → String → Level
classify vocab self_prefix subject =
    let trimmed = trim_space subject in
    let best = best_of vocab trimmed in
    if ltb 0 best.length
    then best.level
    else if is_self self_prefix trimmed
    then level_patch
    else if vocab.unmatched == ""
    then level_patch
    else level_of vocab.unmatched

unfoldable pub claimed_by : String → List String → Bool
claimed_by subject [] = false
claimed_by subject (token ∷ tokens) = claims subject token || claimed_by subject tokens

unfoldable pub is_claimed : Semantic → String → String → Bool
is_claimed vocab self_prefix subject =
    is_self self_prefix subject
    || claimed_by subject vocab.ignore
    || claimed_by subject vocab.patch
    || claimed_by subject vocab.minor
    || claimed_by subject vocab.major

unfoldable pub unclaimed : Semantic → String → List String → List String
unclaimed vocab self_prefix [] = []
unclaimed vocab self_prefix (subject ∷ subjects) =
    let s = trim_space subject in
    let rest = unclaimed vocab self_prefix subjects in
    if s == "" then rest else if is_claimed vocab self_prefix s then rest else s ∷ rest
