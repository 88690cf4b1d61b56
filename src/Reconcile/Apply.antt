-- ===== src/Reconcile/Apply.antt =====
-- internal/controller/reconcilecontroller/reconcilecontroller.go: `Apply` and its phases.
pub mod Planned
pub mod Halts
use forge_ci.Common.{
  String, ℕ, ◌+◌, Bool, true, false, not, ◌&&◌, ◌||◌, List, [], ◌∷◌, ◌++◌, Option, none, some, ◌==◌,
  ltb, nat_eq, length, if◌then◌else◌, ◌++ₛ◌,
}
use forge_ci.Common.Text.{quote}
use forge_ci.Types.{ForgeTypes, Revision, Run, ArtifactOutput}
use forge_ci.Config.{artifact, Substage, Stage, Pipeline}
use forge_ci.Reconcile.Index.{EngineIndex, require, new_index}
use forge_ci.Reconcile.Records.{ReleaseDecision}
use forge_ci.Reconcile.World.{Env, M, ◌>>=◌, ◌>>◌, pure, wrap}
use forge_ci.Reconcile.Resources.{Options, reconcile_resources}
use forge_ci.Reconcile.Promote.{StageReport}
use forge_ci.Reconcile.Release.{if_ok, read_evaluation, record_evaluation}
use forge_ci.Reconcile.Release.Decide.{no_decision, decide_release}
use forge_ci.Reconcile.Revise.{resolve_revision, mint, pinned_revision}
use forge_ci.Reconcile.Carry.{uses_of, carry_forward}
use forge_ci.Reconcile.Publish.{stages_before}
use forge_ci.Reconcile.Stages.{apply_stage}
use forge_ci.Reconcile.Stages.Named.{apply_named_stage}
use forge_ci.Reconcile.Verbs.{Report, empty_report}

-- `Options`.
pub record ApplyOptions : Type 0 where
  pub base : Options
  pub phase : String
  pub stage : String
  pub substage : String
  pub revision : String

abbrev pub phase_all : String
phase_all = ""

abbrev pub phase_self_reconcile : String
phase_self_reconcile = "self-reconcile"

abbrev pub phase_evaluate : String
phase_evaluate = "evaluate"

abbrev pub is_some : {A : Type 0} → Option A → Bool
is_some none = false
is_some (some a) = true

-- `publishes`.
unfoldable pub publishes_any : EngineIndex → List Substage → Bool
publishes_any index [] = false
publishes_any index (sub ∷ subs) =
    is_some (if_ok (require index sub.engine artifact)) || publishes_any index subs

abbrev pub count_runs : {f : ForgeTypes} → List (StageReport f) → ℕ
count_runs [] = 0
count_runs (s ∷ ss) = length s.runs + count_runs ss

abbrev pub count_reused : {f : ForgeTypes} → List (StageReport f) → ℕ
count_reused [] = 0
count_reused (s ∷ ss) = s.reused + count_reused ss

abbrev pub all_released : {f : ForgeTypes} → List (StageReport f) → List ArtifactOutput
all_released [] = []
all_released (s ∷ ss) = s.released ++ all_released ss

-- The report of a run whose stages were applied.
unfoldable pub with_stages : {f : ForgeTypes} → Report f → List (StageReport f) → Report f
with_stages report stages = record report {
  stages = stages;
  released = report.released ++ all_released stages;
  nothing_new = ltb 0 (count_runs stages) && nat_eq (count_reused stages) (count_runs stages);
}

module _ {f : ForgeTypes} (env : Env f) (p : Pipeline) (index : EngineIndex) (root : String) where
  unfoldable pub carried_into : Revision → Stage → M f (List f.Artifact)
  carried_into revision stage =
      if publishes_any index stage.substages
      then wrap ("carrying what the stages before " ++ₛ quote stage.name ++ₛ " built") (
          carry_forward env index revision root (stages_before stage.name p.stages) (uses_of stage))
      else pure []

  -- The loop over the stages, which ends with the first that does not advance.
  unfoldable pub apply_stages : Revision → ReleaseDecision → List Stage → M f (List (StageReport f))
  unfolding carried_into
  apply_stages revision decision [] = pure []
  apply_stages revision decision (stage ∷ stages) = do
    carried ← carried_into revision stage
    report ← apply_stage env p index revision decision root carried stage
    rest ← (if report.advance then apply_stages revision decision stages else pure [])
    pure (report ∷ rest)

  unfoldable pub revision_for : String → M f (Revision × ReleaseDecision)
  revision_for id =
      if id == ""
      then (do revision ← resolve_revision env p root; pure (revision, no_decision))
      else pinned_revision env index p root id

  unfoldable pub evaluate : Revision → M f ReleaseDecision
  evaluate revision = do
    decision ← decide_release env p index root revision
    let bound = record decision { revision = revision }
    record_evaluation env index revision.id bound
    pure bound

  unfoldable pub decision_for : ApplyOptions → Revision → ReleaseDecision → M f ReleaseDecision
  unfolding evaluate
  decision_for opts revision pinned =
      if opts.phase == phase_all
      then decide_release env p index root revision
      else if opts.phase == phase_evaluate
      then evaluate revision
      else if opts.revision == ""
      then read_evaluation env index revision.id
      else pure pinned

  abbrev pub skipped_report : Report f → ReleaseDecision → Report f
  skipped_report report decision = record report {
    skipped = true;
    reason = decision.reason;
    evaluation = "skip";
    released =
        record {
          published = false;
          url = decision.url;
          reason = decision.reason;
          tagged = [];
          index = "";
        }
        ∷ [];
  }

  unfoldable pub apply_stages_of :
      ApplyOptions → Revision → ReleaseDecision → Report f → M f (Report f)
  unfolding apply_stages with_stages
  apply_stages_of opts revision decision report =
      if opts.stage == ""
      then (do stages ← apply_stages revision decision p.stages; pure (with_stages report stages))
      else (do
        stage ← apply_named_stage env p index revision decision root opts.stage opts.substage
        pure (record report { stages = stage ∷ []; released = report.released ++ stage.released }))

  unfoldable pub proceed : ApplyOptions → Revision → ReleaseDecision → Report f → M f (Report f)
  unfolding apply_stages_of
  proceed opts revision decision report =
      if opts.phase == phase_evaluate
      then (do
        mint env index revision
        pure (record report {
          minted = true;
          evaluation = "proceed";
          actions =
              if decision.reason == ""
              then report.actions
              else report.actions ++ decision.reason ∷ [];
        }))
      else if opts.phase == phase_all
      then (do
        mint env index revision
        apply_stages_of opts revision decision (record report { minted = true }))
      else apply_stages_of opts revision decision report

  -- `applyPhases`.
  unfoldable pub apply_phases : ApplyOptions → List String → M f (Report f)
  unfolding revision_for decision_for proceed
  apply_phases opts actions = do
    (revision, pinned) ← revision_for opts.revision
    decision ← decision_for opts revision pinned
    let report = record empty_report {
      revision = some revision;
      version = decision.version;
      actions = actions;
    }
    if decision.skip
        then pure (skipped_report report decision)
        else proceed opts revision decision report

  -- What follows the managers.
  unfoldable pub after_resources : ApplyOptions → List String × Bool × Bool → M f (Report f)
  unfolding apply_phases
  after_resources opts (actions, changed, published) =
      let more =
        if changed
        then actions
          ++ "reconcile changed resources nothing publishes, so no push will re-fire this pipeline; continuing on the converged state"
            ∷ []
        else actions in
      if opts.base.dry_run
      then pure (record empty_report { actions = actions; planned = true })
      else if changed && published
      then pure (record empty_report {
        actions = actions;
        superseded = true;
        reconciliation = "superseded";
      })
      else if opts.phase == phase_self_reconcile
      then pure (record empty_report { actions = more; reconciliation = "converged" })
      else apply_phases opts more

  -- `applyFrom`.
  unfoldable pub apply_from : ApplyOptions → M f (Report f)
  unfolding after_resources
  apply_from opts = reconcile_resources env p index root false opts.base >>= after_resources opts

-- `Controller.Apply`.
unfoldable pub apply_pipeline :
    {f : ForgeTypes} → Env f → Pipeline → String → ApplyOptions → M f (Report f)
unfolding apply_from apply_phases
apply_pipeline env given root opts =
    let (index, p) = new_index given root in
    if opts.phase == phase_all || opts.phase == phase_self_reconcile
    then apply_from env p index root opts
    else apply_phases env p index root opts []
