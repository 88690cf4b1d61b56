-- ===== src/Reconcile/Carry.antt =====
-- internal/controller/reconcilecontroller: what a stage reads of the stages before it (carried.go), and
-- what brings it back (release.go).
use forge_ci.Common.{
  String, suc, Bool, true, List, [], ◌∷◌, ◌++◌, Option, none, some, member, nat_eq, length,
  if◌then◌else◌, ◌++ₛ◌,
}
use forge_ci.Types.{ForgeTypes, Run, Revision, ArtifactGetInput}
use forge_ci.Config.{compute, Engine, Substage, Stage}
use forge_ci.Reconcile.World.{Env, M, ◌>>=◌, pure, lift, ask, wrap, artifact_get}
use forge_ci.Reconcile.Index.{EngineIndex, or_empty, require}
use forge_ci.Reconcile.State.{get_run, run_key}
use forge_ci.Reconcile.Release.{if_ok}

-- A substage that declares nothing may read anything: then so may the stage.
unfoldable pub uses_from : List Substage → Option (List String)
uses_from [] = some []
uses_from (sub ∷ subs) = elim sub.uses [
  | [] ↦ none
  | _ ∷ _ ↦ elim (uses_from subs) [ none ↦ none | some uses ↦ some (sub.uses ++ uses) ]
]

-- `usesOf`.
unfoldable pub uses_of : Stage → Option (List String)
unfolding uses_from
uses_of stage = uses_from stage.substages

-- Whether a substage is among what is used: `uses != nil && !named(uses, …)` the other way round.
unfoldable pub is_used : Option (List String) → String → Bool
is_used none name = true
is_used (some uses) name = member name uses

abbrev pub artifacts_of : {f : ForgeTypes} → Run f → List f.Artifact
artifacts_of run = elim run.forge [ none ↦ [] | some result ↦ result.artifacts ]

-- The runs of a stage, under its name.
pub record StageRuns (f : ForgeTypes) : Type 0 where
  pub name : String
  pub runs : List (Run f)

abbrev pub with_runs :
    {f : ForgeTypes} → String → List (Run f) → List (StageRuns f) → List (StageRuns f)
with_runs name [] rest = rest
with_runs name (run ∷ runs) rest = record { name = name; runs = run ∷ runs } ∷ rest

module _ {f : ForgeTypes} (env : Env f) (index : EngineIndex) (revision : Revision)
    (root : String) where
  unfoldable pub restore_run : String → Run f → List f.Artifact → M f (List f.Artifact)
  restore_run stage run [] = pure []
  restore_run stage run (artifact ∷ artifacts) =
      let words = "restoring what " ++ₛ stage ++ₛ "/" ++ₛ run.substage ++ₛ " built" in
      wrap words (do
        engine ← lift (require index run.engine compute)
        let input : ArtifactGetInput f = record {
          revision = revision.id;
          artifacts = artifact ∷ artifacts;
          root = root;
          spec = or_empty engine.spec;
        }
        ask (artifact_get engine.engine input) (λ h. env.on_artifact_get h engine.engine input))

  unfoldable pub restore_runs : String → List (Run f) → M f (List f.Artifact)
  unfolding restore_run
  restore_runs stage [] = pure []
  restore_runs stage (run ∷ runs) = do
    got ← restore_run stage run (artifacts_of run)
    rest ← restore_runs stage runs
    pure (got ++ rest)

  -- `restoreArtifacts`.
  unfoldable pub restore_artifacts : List (StageRuns f) → M f (List f.Artifact)
  unfolding restore_runs
  restore_artifacts [] = pure []
  restore_artifacts (stage ∷ stages) = do
    got ← restore_runs stage.name stage.runs
    rest ← restore_artifacts stages
    pure (got ++ rest)

  abbrev pub with_run : Option (Run f) → List (Run f) → List (Run f)
  with_run none runs = runs
  with_run (some run) runs = run ∷ runs

  -- The records of what is used of a stage; a substage without one has not run.
  unfoldable pub used_runs : Option (List String) → String → List Substage → M f (List (Run f))
  used_runs uses stage [] = pure []
  used_runs uses stage (sub ∷ subs) = do
    found ←
        (if is_used uses (stage ++ₛ "/" ++ₛ sub.name)
          then get_run env index (run_key revision.id stage sub.name)
          else pure none)
    runs ← used_runs uses stage subs
    pure (with_run found runs)

  unfoldable pub used_stages : Option (List String) → List Stage → M f (List (StageRuns f))
  unfolding used_runs
  used_stages uses [] = pure []
  used_stages uses (stage ∷ before) = do
    runs ← used_runs uses stage.name stage.substages
    rest ← used_stages uses before
    pure (with_runs stage.name runs rest)

  -- `carryForward`.
  unfoldable pub carry_forward : List Stage → Option (List String) → M f (List f.Artifact)
  unfolding used_stages restore_artifacts
  carry_forward before uses = used_stages uses before >>= restore_artifacts

  -- `artifactsAtHand`.
  unfoldable pub at_hand_from : Run f → Option Engine → List f.Artifact → M f Bool
  at_hand_from run engine [] = pure true
  at_hand_from run none (artifact ∷ artifacts) = pure true
  at_hand_from run (some engine) (artifact ∷ artifacts) = do
    let input : ArtifactGetInput f = record {
      revision = revision.id;
      artifacts = artifact ∷ artifacts;
      root = root;
      spec = or_empty engine.spec;
    }
    got ←
        wrap ("asking whether what " ++ₛ run.stage ++ₛ "/" ++ₛ run.substage ++ₛ " built is at hand")
          (ask (artifact_get engine.engine input) (λ h. env.on_artifact_get h engine.engine input))
    pure (nat_eq (length got) (suc (length artifacts)))

  unfoldable pub artifacts_at_hand : Substage → Run f → M f Bool
  unfolding at_hand_from
  artifacts_at_hand sub run =
      at_hand_from run (if_ok (require index sub.engine compute)) (artifacts_of run)
