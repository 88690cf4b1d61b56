-- ===== src/Reconcile/Release.antt =====
-- internal/controller/reconcilecontroller/release.go, with what reconcilecontroller.go has of the same:
-- what a pipeline releases, and the records of it.
pub mod Scan
pub mod Asked
pub mod Decide
pub mod Looks
pub mod Numbered
mod Tests
use forge_ci.Common.{
  String, ℕ, Bool, true, false, not, ◌&&◌, ◌||◌, List, [], ◌∷◌, ◌++◌, Option, none, some, Result,
  ok, err, ◌==◌, nat_eq, every, select, member, map, length, lookup_or, if◌then◌else◌, ◌++ₛ◌,
}
use forge_ci.Common.Digits.{print_nat}
use forge_ci.Common.Paths.{base, join}
use forge_ci.Types.{ForgeTypes, Revision, text_at}
use forge_ci.Config.{artifact, Engine, Substage, Stage, Pipeline, ignore_repos}
use forge_ci.Reconcile.Index.{EngineIndex, or_empty, require}
use forge_ci.Reconcile.World.{Env, M, ◌>>=◌, ◌>>◌, pure, throw, lift, no_evaluation}
use forge_ci.Reconcile.Records.{ReleaseRecord, ReleaseDecision}
use forge_ci.Reconcile.State.{kind_owned, get_json, put_json, decoded}

abbrev pub kind_release : String
kind_release = "release"

abbrev pub evaluation_key_prefix : String
evaluation_key_prefix = "evaluate-"

-- An engine that is required and there.
abbrev pub if_ok : {E A : Type 0} → Result E A → Option A
if_ok (ok a) = some a
if_ok (err e) = none

abbrev pub or_else : {A : Type 0} → Option A → Option A → Option A
or_else (some a) other = some a
or_else none other = other

unfoldable pub artifact_engine_in : EngineIndex → List Substage → Option Engine
artifact_engine_in index [] = none
artifact_engine_in index (sub ∷ subs) =
    or_else (if_ok (require index sub.engine artifact)) (artifact_engine_in index subs)

-- `firstArtifactEngine`.
unfoldable pub first_artifact_engine : EngineIndex → List Stage → Option Engine
unfolding artifact_engine_in
first_artifact_engine index [] = none
first_artifact_engine index (stage ∷ stages) =
    or_else (artifact_engine_in index stage.substages) (first_artifact_engine index stages)

unfoldable pub home_of : String → Option Engine → Option String
home_of root none = none
home_of root (some engine) =
    let repo = text_at "repo" (or_empty engine.spec) in
    if repo == "" then some root else some (join (root ∷ base repo ∷ []))

-- `releaseHome`.
unfoldable pub release_home : Pipeline → EngineIndex → String → Option String
unfolding home_of first_artifact_engine
release_home p index root = home_of root (first_artifact_engine index p.stages)

unfoldable pub ignored_by : Option Engine → List String
ignored_by none = []
ignored_by (some engine) = ignore_repos (or_empty engine.spec)

-- `releaseSet`.
unfoldable pub release_set : Pipeline → EngineIndex → Revision → List (String × String)
unfolding ignored_by first_artifact_engine
release_set p index revision =
    let ignored = ignored_by (first_artifact_engine index p.stages) in
    select (λ entry. not (member entry.0 ignored)) revision.repos

-- `sameMap`, of maps that hold each key once.
unfoldable pub same_map : List (String × String) → List (String × String) → Bool
same_map a b = nat_eq (length a) (length b) && every (λ entry. lookup_or "" entry.0 b == entry.1) a

module _ {f : ForgeTypes} (env : Env f) (index : EngineIndex) where
  -- `readRelease`.
  unfoldable pub read_release : String → M f (Option ReleaseRecord)
  read_release key = do
    payload ← get_json env index kind_release key
    decoded env index kind_release key none
        (λ written. elim (env.decode_release written) [ none ↦ none | some rec ↦ some (some rec) ])
        payload

  -- `writeRelease`.
  unfoldable pub write_release : ReleaseRecord → M f (Unit {0})
  write_release rec = do
    put_json env index kind_release rec.revision (env.encode_release rec)
    if rec.tag == ""
        then pure tt
        else put_json env index kind_release ("by-tag/" ++ₛ rec.tag) (env.encode_release rec)

  -- `readEvaluation`, where no evaluation is `none` and `ErrNoEvaluation` at once.
  unfoldable pub find_evaluation : String → M f (Option ReleaseDecision)
  find_evaluation revision = do
    payload ← get_json env index kind_owned (evaluation_key_prefix ++ₛ revision)
    decoded env index kind_owned (evaluation_key_prefix ++ₛ revision) none
        (λ written. elim (env.decode_decision written) [ none ↦ none | some d ↦ some (some d) ])
        payload

  unfoldable pub evaluated : String → Option ReleaseDecision → M f ReleaseDecision
  evaluated revision none = throw (no_evaluation revision)
  evaluated revision (some d) = pure d

  unfoldable pub read_evaluation : String → M f ReleaseDecision
  unfolding find_evaluation evaluated
  read_evaluation revision = find_evaluation revision >>= evaluated revision

  -- `writeEvaluation`.
  unfoldable pub write_evaluation : String → ReleaseDecision → M f (Unit {0})
  write_evaluation revision d =
      put_json env index kind_owned (evaluation_key_prefix ++ₛ revision) (env.encode_decision d)

  -- `sameEvaluationBeyondItsTimestamp`.
  unfoldable pub same_evaluation : ReleaseDecision → ReleaseDecision → Bool
  same_evaluation was decided =
      let dated = record was {
        revision = record was.revision { created_at = decided.revision.created_at };
      } in
      env.encode_decision dated == env.encode_decision decided

  unfoldable pub write_unless_same :
      String → ReleaseDecision → Option ReleaseDecision → M f (Unit {0})
  unfolding write_evaluation same_evaluation
  write_unless_same revision d none = write_evaluation revision d
  write_unless_same revision d (some was) =
      if same_evaluation was d then pure tt else write_evaluation revision d

  -- `recordEvaluation`.
  unfoldable pub record_evaluation : String → ReleaseDecision → M f (Unit {0})
  unfolding find_evaluation write_unless_same
  record_evaluation revision d = find_evaluation revision >>= write_unless_same revision d
