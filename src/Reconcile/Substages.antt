-- ===== src/Reconcile/Substages.antt =====
-- internal/controller/reconcilecontroller/reconcilecontroller.go: `applySubstage` and `applyStage`, with
-- `putArtifacts` of release.go. The code starts the substages of a wave together; here they run in the
-- wave's order, which is one of their interleavings: they share nothing but the engines.
use forge_ci.Common.{
  String, ℕ, ◌-◌, Bool, true, false, ◌||◌, List, [], ◌∷◌, Option, none, some, ok, err, ◌==◌, lookup,
  if◌then◌else◌, ◌++ₛ◌,
}
use forge_ci.Common.Paths.{join}
use forge_ci.Common.Text.{quote}
use forge_ci.Types.{
  ForgeTypes, Spec, Values, list, text, cons, nil, is_passed, Run, Revision, RunInput, RunOutput,
  ForgeResult, ArtifactGetInput, ArtifactOutput,
}
use forge_ci.Config.{compute, artifact, Engine, Substage, Stage, Pipeline}
use forge_ci.Reconcile.Index.{EngineIndex, or_empty, require, targets}
use forge_ci.Reconcile.Records.{ReleaseDecision}
use forge_ci.Reconcile.World.{
  Env, M, ◌>>=◌, ◌>>◌, pure, throw, lift, ask, wrap, clock, artifact_put, run_targets, read_file,
  file_exists, changed_lock, unreadable,
}
use forge_ci.Reconcile.State.{kind_run, get_run, put_json, run_key}
use forge_ci.Reconcile.Promote.{is_green, evaluate_gates}
use forge_ci.Reconcile.Release.{if_ok}
use forge_ci.Reconcile.Revise.{checkouts}
use forge_ci.Reconcile.Carry.{artifacts_at_hand}
use forge_ci.Reconcile.Publish.{publish_substage}

abbrev pub kind_dependency_lock : String
kind_dependency_lock = "dependency-lock"

abbrev pub lock_manifest_path : String
lock_manifest_path = ".forge/dependency-locks.json"

-- `ArtifactOutput{}`.
abbrev pub no_output : ArtifactOutput
no_output = record { published = false; url = ""; reason = ""; tagged = []; index = "" }

abbrev pub holds_text : String → Values → Bool
holds_text kind nil = false
holds_text kind (cons (text name) vs) = name == kind || holds_text kind vs
holds_text kind (cons _ vs) = holds_text kind vs

-- `stateDeclaresKind`.
unfoldable pub declares_kind : String → Spec → Bool
declares_kind kind spec = elim (lookup "kinds" spec) [
  | some (list vs) ↦ holds_text kind vs
  | _ ↦ false
]

-- What a substage answers: its run, whether it was reused, and what it published.
abbrev pub Answer : ForgeTypes → Type 0
Answer f = Run f × Bool × ArtifactOutput

module _ {f : ForgeTypes} (env : Env f) (p : Pipeline) (index : EngineIndex) (revision : Revision)
    (decision : ReleaseDecision) (root : String) where
  abbrev pub with_artifacts : Option (ForgeResult f) → List f.Artifact → Option (ForgeResult f)
  with_artifacts none artifacts = none
  with_artifacts (some result) artifacts = some (record result { artifacts = artifacts })

  abbrev pub built_by : Option (ForgeResult f) → List f.Artifact
  built_by none = []
  built_by (some result) = result.artifacts

  -- `putArtifacts`: the result, with the locations that the engine serves.
  unfoldable pub put_artifacts :
      Engine → Option (ForgeResult f) → List f.Artifact → M f (Option (ForgeResult f))
  put_artifacts engine result [] = pure result
  put_artifacts engine result (built ∷ more) = do
    let input : ArtifactGetInput f = record {
      revision = revision.id;
      artifacts = built ∷ more;
      root = root;
      spec = or_empty engine.spec;
    }
    served ← ask (artifact_put engine.engine input) (λ h. env.on_artifact_put h engine.engine input)
    pure (with_artifacts result served)

  -- The loop of `recordDependencyLocks`, over paths and digests.
  unfoldable pub record_locks : List (String × String) → M f (Unit {0})
  record_locks [] = pure tt
  record_locks ((path, sha) ∷ locks) = do
    let file = join (root ∷ path ∷ [])
    content ←
        wrap ("recording dependency lock " ++ₛ path)
          (ask (read_file file) (λ h. env.on_read_file h file))
    let found = env.sha256_hex content
    (if found == sha then pure tt else throw (changed_lock path sha found))
    put_json env index kind_dependency_lock (revision.id ++ₛ "/" ++ₛ path)
        (env.encode_lock revision.id path sha content)
    record_locks locks

  unfoldable pub locks_in : String → Bool → M f (List (String × String))
  locks_in file false = pure []
  locks_in file true = wrap "reading the lock manifest" (do
    written ← ask (read_file file) (λ h. env.on_read_file h file)
    lift (elim (env.decode_locks written) [
      | none ↦ err (unreadable kind_dependency_lock lock_manifest_path)
      | some locks ↦ ok locks
    ]))

  -- `recordDependencyLocks`.
  unfoldable pub record_dependency_locks : M f (Unit {0})
  unfolding record_locks locks_in declares_kind
  record_dependency_locks =
      let file = join (root ∷ lock_manifest_path ∷ []) in
      if declares_kind kind_dependency_lock index.state_spec
      then (do
        there ←
            wrap "reading the lock manifest"
              (ask (file_exists file) (λ h. env.on_file_exists h file))
        locks ← locks_in file there
        record_locks locks)
      else pure tt

  abbrev pub run_input : Stage → Substage → Engine → RunInput
  run_input stage sub engine = record {
    revision = revision.id;
    version = decision.version;
    stage = stage.name;
    substage = sub.name;
    sync = sub.sync;
    targets = targets index sub.targets;
    params = sub.params;
    repos = checkouts p root revision;
    root = root;
    spec = or_empty engine.spec;
  }

  abbrev pub computed_run :
      Stage → Substage → (started now : ℕ) → RunOutput f → Option (ForgeResult f) → Run f
  computed_run stage sub started now out result = record {
    revision = revision.id;
    stage = stage.name;
    substage = sub.name;
    engine = sub.engine;
    status = out.status;
    started_at = started;
    duration = now - started;
    message = out.message;
    output = out.output;
    forge = result;
    gates = [];
  }

  -- What a run that passed leaves behind it.
  unfoldable pub keep_built : Engine → RunOutput f → Bool → M f (Option (ForgeResult f))
  unfolding put_artifacts record_dependency_locks
  keep_built engine out false = pure out.forge
  keep_built engine out true = do
    result ← wrap "keeping what it built" (put_artifacts engine out.forge (built_by out.forge))
    wrap "recording the closure it was proven with" record_dependency_locks
    pure result

  -- A substage whose engine runs targets.
  unfoldable pub compute_substage : Stage → Substage → M f (Answer f)
  unfolding keep_built
  compute_substage stage sub = do
    let place = "stage " ++ₛ quote stage.name ++ₛ " substage " ++ₛ quote sub.name
    engine ← wrap place (lift (require index sub.engine compute))
    started ← clock env
    let input = run_input stage sub engine
    out ←
        wrap place
          (ask (run_targets engine.engine input) (λ h. env.on_run_targets h engine.engine input))
    result ← wrap place (keep_built engine out (is_passed out.status))
    now ← clock env
    let run = computed_run stage sub started now out result
    gates ← wrap place (evaluate_gates env index sub run)
    put_json env index kind_run (run_key revision.id stage.name sub.name)
        (env.encode_run (record run { gates = gates }))
    pure (record run { gates = gates }, false, no_output)

  module _ (carried : List f.Artifact) where
    unfoldable pub start_substage : Stage → Substage → Option Engine → M f (Answer f)
    unfolding compute_substage
    start_substage stage sub none = compute_substage stage sub
    start_substage stage sub (some engine) =
        publish_substage env index root p stage sub engine revision decision carried

    -- The recorded run, where it is green.
    abbrev pub green_of : Option (Run f) → Option (Run f)
    green_of none = none
    green_of (some run) = if is_green run then some run else none

    unfoldable pub at_hand : Substage → Option (Run f) → M f Bool
    at_hand sub none = pure false
    at_hand sub (some run) = artifacts_at_hand env index revision root sub run

    unfoldable pub reuse_or : Option (Run f) → Bool → M f (Answer f) → M f (Answer f)
    reuse_or (some run) true start = pure (run, true, no_output)
    reuse_or (some run) false start = start
    reuse_or none there start = start

    -- `applySubstage`.
    unfoldable pub apply_substage : Stage → Substage → M f (Answer f)
    unfolding start_substage at_hand reuse_or
    apply_substage stage sub = do
      existing ← get_run env index (run_key revision.id stage.name sub.name)
      there ← at_hand sub (green_of existing)
      reuse_or (green_of existing) there
          (start_substage stage sub (if_ok (require index sub.engine artifact)))
