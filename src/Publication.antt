-- ===== src/Publication.antt =====
-- internal/controller/artifactcontroller/artifactcontroller.go: what a release would do. A built file is
-- read through its fields, which are those of another repository's record.
pub mod Assets
pub mod Proven
mod Tests
use forge_ci.Common.{
  String, Bool, true, false, not, ◌&&◌, ◌||◌, List, [], ◌∷◌, ◌++◌, Option, none, some, Result, ok,
  err, ◌==◌, map, member, lookup, lookup_or, if◌then◌else◌, ◌++ₛ◌,
}
use forge_ci.Common.{◌>>=◌, nat_eq}
use Prim.Native.Char.{code}
use forge_ci.Common.Digits.{codes}
use forge_ci.Common.Sort.{sort_by, le_text}
use forge_ci.Common.Text.{is_blank, contains, has_suffix}
use forge_ci.Version.{tag_name}
use forge_ci.Version.Scan.{parse_semver}
use text.Mathlib.Text.{starts_with}

-- What a record says of a built file; `is_binary` is the test of its type against `forge.TypeBinary`.
pub record BuiltFile : Type 0 where
  pub name : String
  pub location : String
  pub os : String
  pub arch : String
  pub is_binary : Bool

pub record Upload : Type 0 where
  pub path : String
  pub asset : String
  pub name : String
  pub os : String
  pub arch : String

-- `Plan`; a tag is a repo and its commit.
pub record Plan : Type 0 where
  pub version : String
  pub tag : String
  pub tags : List (String × String)
  pub uploads : List Upload

-- `ErrRevision`, `ErrDirty`, `ErrVersion` and `ErrCollision`.
pub data PlanError : Type 0 where
  no_revision : PlanError
  dirty : (revision : String) → PlanError
  bad_version : (version : String) → PlanError
  collision : (asset first second : String) → PlanError

-- `AssetName`.
unfoldable pub asset_name : String → String → String → String
asset_name name os arch = name ++ₛ "_" ++ₛ os ++ₛ "_" ++ₛ arch

-- `strings.CutPrefix`.
unfoldable pub cut_prefix : String → String → Option String
cut_prefix String.[] s = some s
cut_prefix (String.◌∷◌ p prefix) String.[] = none
cut_prefix (String.◌∷◌ p prefix) (String.◌∷◌ c s) =
    let rest = cut_prefix prefix s in if nat_eq (code p) (code c) then rest else none

-- The path of a location, where it is one.
unfoldable pub path_of : String → Option String
unfolding cut_prefix
path_of location = elim (cut_prefix "file://" location) [
  | some path ↦ some path
  | none ↦ if contains location ":" then none else some location
]

-- The path of a file that is built for a platform.
unfoldable pub platform_path : BuiltFile → Option String
unfolding path_of
platform_path file =
    if not file.is_binary || (file.os == "" || file.arch == "") then none else path_of file.location

abbrev pub upload_of : String → BuiltFile → Upload
upload_of path file = record {
  path = path;
  asset = asset_name file.name file.os file.arch;
  name = file.name;
  os = file.os;
  arch = file.arch;
}

-- The assets that are claimed, with the path that claims each.
abbrev pub claimed_by : String → List Upload → Option String
claimed_by asset [] = none
claimed_by asset (u ∷ us) = if u.asset == asset then some u.path else claimed_by asset us

abbrev pub paths_of : List Upload → List String
paths_of [] = []
paths_of (u ∷ us) = u.path ∷ paths_of us

-- One more upload, unless its asset is claimed.
unfoldable pub claim : Upload → List Upload → Option String → Result PlanError (List Upload)
claim u us none = ok (u ∷ us)
claim u us (some first) = err (collision u.asset first u.path)

-- The body of the loop over the artifacts, once a file's path is known.
unfoldable pub take_path : BuiltFile → List Upload → Option String → Result PlanError (List Upload)
unfolding claim
take_path file us none = ok us
take_path file us (some path) =
    let u = upload_of path file in
    if path == "" || member path (paths_of us) then ok us else claim u us (claimed_by u.asset us)

-- The loop: a path that is `seen` is one of an upload.
unfoldable pub uploads_from : List BuiltFile → List Upload → Result PlanError (List Upload)
unfolding platform_path take_path
uploads_from [] us = ok us
uploads_from (file ∷ files) us = take_path file us (platform_path file) >>= uploads_from files

abbrev pub is_proven : String → String → Result PlanError (Unit {0})
is_proven revision version =
    if is_blank revision
    then err no_revision
    else if has_suffix revision "-dirty"
    then err (dirty revision)
    else elim (parse_semver (codes version)) [ none ↦ err (bad_version version) | some v ↦ ok tt ]

-- `Controller.Plan`.
unfoldable pub plan :
    (revision version prefix : String)
    → List (String × String)
    → List BuiltFile
    → Result PlanError Plan
unfolding uploads_from
plan revision version prefix repos files = do
  proven ← is_proven revision version
  uploads ← uploads_from files []
  ok (record {
    version = version;
    tag = tag_name prefix version;
    tags = sort_by (λ a b. le_text a.0 b.0) repos;
    uploads = sort_by (λ a b. le_text a.asset b.asset) uploads;
  })
