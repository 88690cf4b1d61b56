-- ===== src/Publication/Tests.antt =====
-- Plans of releases, and the theorems at them.
use forge_ci.Common.{String, ◌≡◌, refl, true, List, [], ◌∷◌, ok, err}
use forge_ci.Common.Digits.{read_digits}
use forge_ci.Common.Text.{trim_space, has_suffix, contains}
use forge_ci.Version.{tag_name}
use forge_ci.Version.Scan.{parse_semver, expect, read_number, read_prerelease}
use forge_ci.Publication.{
  BuiltFile, Plan, collision, dirty, plan, uploads_from, platform_path, path_of, cut_prefix,
  take_path, claim, asset_name,
}
use forge_ci.Publication.Assets.{IsDistinct, plan-IsDistinct}
use forge_ci.Publication.Proven.{IsProven, plan-IsProven}

abbrev binary : String → String → BuiltFile
binary name location = record {
  name = name;
  location = location;
  os = "linux";
  arch = "amd64";
  is_binary = true;
}

abbrev files : List BuiltFile
files =
    binary "forge" "file://out/forge"
    ∷ binary "ci" "out/ci"
    ∷ binary "page" "https://example.org/page"
    ∷ []

abbrev made : Plan
made = record {
  version = "v1.2.0";
  tag = "self-v1.2.0";
  tags = ("app", "1f") ∷ ("lib", "2e") ∷ [];
  uploads =
      record {
        path = "out/ci";
        asset = "ci_linux_amd64";
        name = "ci";
        os = "linux";
        arch = "amd64";
      }
      ∷ record {
        path = "out/forge";
        asset = "forge_linux_amd64";
        name = "forge";
        os = "linux";
        arch = "amd64";
      }
      ∷ [];
}

program : Unit {0}
unfolding plan uploads_from platform_path path_of cut_prefix take_path claim asset_name tag_name
    parse_semver expect read_number read_digits read_prerelease trim_space has_suffix contains
program = tt

plan-made : plan "abc" "v1.2.0" "self" (("lib", "2e") ∷ ("app", "1f") ∷ []) files ≡ ok made
unfolding program
plan-made = refl

plan-collision :
    plan "abc" "v1.2.0" "" [] (binary "ci" "a/ci" ∷ binary "ci" "b/ci" ∷ [])
    ≡ err (collision "ci_linux_amd64" "a/ci" "b/ci")
unfolding program
plan-collision = refl

plan-dirty : plan "abc-dirty" "v1.2.0" "" [] files ≡ err (dirty "abc-dirty")
unfolding program
plan-dirty = refl

plan-IsDistinct_example : IsDistinct made.uploads
plan-IsDistinct_example =
    plan-IsDistinct "abc" "v1.2.0" "self" (("lib", "2e") ∷ ("app", "1f") ∷ []) files made plan-made

plan-IsProven_example : IsProven "abc" "v1.2.0" × (made.tag ≡ tag_name "self" "v1.2.0")
plan-IsProven_example =
    plan-IsProven "abc" "v1.2.0" "self" (("lib", "2e") ∷ ("app", "1f") ∷ []) files made plan-made
