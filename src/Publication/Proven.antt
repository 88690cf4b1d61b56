-- ===== src/Publication/Proven.antt =====
-- internal/controller/artifactcontroller/artifactcontroller.go: the revisions that a plan refuses.
use forge_ci.Common.{
  String, ◌≡◌, refl, sym, ap, false, List, [], Option, none, some, Result, ok, err, arith,
  >>=-eq-ok, ok_inj,
}
use forge_ci.Common.Digits.{codes}
use forge_ci.Common.Text.{is_blank, has_suffix}
use forge_ci.Version.{tag_name}
use forge_ci.Version.Scan.{Semver, parse_semver}
use forge_ci.Publication.{BuiltFile, Plan, PlanError, bad_version, is_proven, plan, uploads_from}

-- A revision with a name, of committed work, under a version that is a tag.
abbrev pub IsProven : String → String → Type 0
IsProven revision version =
    (is_blank revision ≡ false)
    × (has_suffix revision "-dirty" ≡ false)
    × ((v : Semver) × (parse_semver (codes version) ≡ some v))

parsed :
    (version : String) (found : Option Semver)
    → ◌≡◌ {A = Result PlanError (Unit {0})}
        (elim found [ none ↦ err (bad_version version) | some v ↦ ok tt ])
        (ok tt)
    → (v : Semver) × (found ≡ some v)
parsed version none e = cc
parsed version (some v) e = (v, refl)

is_proven-IsProven :
    (revision version : String) → is_proven revision version ≡ ok tt → IsProven revision version
is_proven-IsProven revision version e = (
  ground (arith, e),
  ground (arith, e),
  parsed version (parse_semver (codes version)) (ground (arith, e)),
)

-- A plan is made only for a revision with a name, of committed work, and for a version that is a tag,
-- and it names the release after that version.
pub plan-IsProven :
    (revision version prefix : String) (repos : List (String × String)) (files : List BuiltFile)
    (made : Plan)
    → plan revision version prefix repos files ≡ ok made
    → IsProven revision version × (made.tag ≡ tag_name prefix version)
unfolding plan
plan-IsProven revision version prefix repos files made e =
    let (u, proven, e1) = >>=-eq-ok (is_proven revision version) _ e in
    let (uploads, gathered, e2) = >>=-eq-ok (uploads_from files []) _ e1 in
    (is_proven-IsProven revision version proven, ap (λ (m : Plan). m.tag) (sym (ok_inj e2)))
