-- ===== src/Reconcile/Stages/Named.antt =====
-- internal/controller/reconcilecontroller/stagephase.go: one stage as a job of its own.
use forge_ci.Common.{
  String, Bool, true, false, List, [], ◌∷◌, ◌++◌, Option, none, some, Result, ok, err, ◌==◌,
  if◌then◌else◌, ◌++ₛ◌,
}
use forge_ci.Common.Text.{quote}
use forge_ci.Types.{ForgeTypes, Revision}
use forge_ci.Config.{Stage, Pipeline}
use forge_ci.Reconcile.Index.{EngineIndex}
use forge_ci.Reconcile.Records.{ReleaseDecision}
use forge_ci.Reconcile.World.{
  Error, Env, M, ◌>>=◌, ◌>>◌, pure, throw, lift, wrap, attempt, clock, stage_incomplete, no_stage,
  out_of_order, not_advanced,
}
use forge_ci.Reconcile.World
use forge_ci.Reconcile.Promote.{StageReport, promote_recorded}
use forge_ci.Reconcile.Carry.{carry_forward, uses_of}
use forge_ci.Reconcile.Stages.{substage_named, apply_stage, apply_one}

-- The last stage of a name, and the stages in front of it.
unfoldable pub place_of : String → List Stage → List Stage → Option (List Stage × Stage)
place_of name before [] = none
place_of name before (stage ∷ stages) = elim (place_of name (before ++ stage ∷ []) stages) [
  | some place ↦ some place
  | none ↦ if stage.name == name then some (before, stage) else none
]

abbrev pub last_stage : List Stage → Option Stage
last_stage [] = none
last_stage (stage ∷ stages) = elim (last_stage stages) [ none ↦ some stage | some last ↦ some last ]

-- `errors.Is(err, ErrStageIncomplete)`.
unfoldable pub is_incomplete : Error → Bool
is_incomplete (stage_incomplete sub stage) = true
is_incomplete (World.within words e) = is_incomplete e
is_incomplete _ = false

module _ {f : ForgeTypes} (env : Env f) (p : Pipeline) (index : EngineIndex) (revision : Revision)
    (decision : ReleaseDecision) (root : String) where
  unfoldable pub asked_whether : Stage → Stage → Result Error (StageReport f) → M f (Unit {0})
  unfolding is_incomplete
  asked_whether before stage (err e) =
      if is_incomplete e
      then throw (out_of_order before.name stage.name e)
      else throw (World.within ("asking whether stage " ++ₛ quote before.name ++ₛ " advanced") e)
  asked_whether before stage (ok report) =
      if report.advance then pure tt else throw (not_advanced before.name stage.name report.reason)

  -- The stage in front of a stage must have advanced.
  unfoldable pub in_front : Stage → Option Stage → M f (Unit {0})
  unfolding asked_whether
  in_front stage none = pure tt
  in_front stage (some before) =
      attempt (promote_recorded env index before revision) >>= asked_whether before stage

  unfoldable pub carried_to : Stage → List Stage → M f (List f.Artifact)
  carried_to stage [] = pure []
  carried_to stage (first ∷ before) =
      wrap ("carrying what the stages before " ++ₛ quote stage.name ++ₛ " built")
        (carry_forward env index revision root (first ∷ before) (uses_of stage))

  unfoldable pub apply_place : String → String → Option (List Stage × Stage) → M f (StageReport f)
  unfolding in_front carried_to apply_stage apply_one
  apply_place name substage none = throw (no_stage name)
  apply_place name substage (some (before, stage)) = do
    in_front stage (last_stage before)
    carried ← carried_to stage before
    if substage == ""
        then apply_stage env p index revision decision root carried stage
        else apply_one env p index revision decision root carried stage substage
            (substage_named substage stage.substages)

  -- `applyNamedStage`.
  unfoldable pub apply_named_stage : String → String → M f (StageReport f)
  unfolding apply_place place_of
  apply_named_stage name substage = apply_place name substage (place_of name [] p.stages)
