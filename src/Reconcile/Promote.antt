-- ===== src/Reconcile/Promote.antt =====
-- internal/controller/reconcilecontroller/reconcilecontroller.go and stagephase.go: gates, the
-- promotion of a stage, and the order and holds of its substages.
pub mod Gates
pub mod Agrees
pub mod Recorded
pub mod Order
use forge_ci.Common.{
  String, ℕ, suc, ◌+◌, Bool, true, false, ◌&&◌, List, [], ◌∷◌, ◌++◌, Option, none, some, Result, ok,
  err, ◌==◌, every, map, lookup_or, length, if◌then◌else◌, ◌++ₛ◌,
}
use forge_ci.Common.Text.{quote}
use forge_ci.Types.{
  ForgeTypes, is_passed, GateInput, GateResult, Run, Revision, PromotionInput, PromotionOutput,
  ArtifactOutput,
}
use forge_ci.Waves.{Needs, WavesError, cycle, out_of_fuel, waves}
use forge_ci.Config.{Port, gate, promotion, Engine, Substage, Stage, substage_names, substage_needs}
use forge_ci.Reconcile.World.{
  Env, Error, M, ◌>>=◌, pure, throw, ask, wrap, lift, evaluate_gate, evaluate_promotion,
  stage_incomplete, needs_cycle, no_waves,
}
use forge_ci.Reconcile.World
use forge_ci.Reconcile.Index.{EngineIndex, or_empty, require}
use forge_ci.Reconcile.State.{get_run, run_key}

-- `StageReport`.
pub record StageReport (f : ForgeTypes) : Type 0 where
  pub name : String
  pub runs : List (Run f)
  pub advance : Bool
  pub reason : String
  pub reused : ℕ
  pub released : List ArtifactOutput

module _ {f : ForgeTypes} where
  unfoldable pub all_gates_passed : Run f → Bool
  all_gates_passed run = every (λ (result : GateResult). is_passed result.status) run.gates

  -- The code's `run.Status == StatusPassed && allGatesPassed(run)`.
  unfoldable pub is_green : Run f → Bool
  unfolding all_gates_passed
  is_green run = is_passed run.status && all_gates_passed run

  module _ (env : Env f) (index : EngineIndex) where
    unfoldable pub evaluate_gates_from : Run f → List String → M f (List GateResult)
    evaluate_gates_from run [] = pure []
    evaluate_gates_from run (alias ∷ aliases) = do
      engine ← lift (require index alias gate)
      let input : GateInput f = record { run = run; spec = or_empty engine.spec }
      result ← ask (evaluate_gate engine.engine input) (λ h. env.on_gate h engine.engine input)
      results ← evaluate_gates_from run aliases
      pure (record result { alias = alias } ∷ results)

    -- `evaluateGates`.
    unfoldable pub evaluate_gates : Substage → Run f → M f (List GateResult)
    evaluate_gates sub run = evaluate_gates_from run sub.gates

    -- `promote`.
    unfoldable pub promote : Stage → List (Run f) → M f (Bool × String)
    promote stage runs =
        let stage_words = "stage " ++ₛ quote stage.name in
        if stage.promotion == ""
        then (if every is_green runs
            then pure (true, stage_words ++ₛ " passed every substage")
            else pure (false, stage_words ++ₛ " is not finished"))
        else wrap stage_words (do
          engine ← lift (require index stage.promotion promotion)
          let input : PromotionInput f = record {
            stage = stage.name;
            runs = runs;
            spec = or_empty engine.spec;
          }
          out ←
              ask (evaluate_promotion engine.engine input)
                (λ h. env.on_promotion h engine.engine input)
          pure (out.advance, out.reason))

    unfoldable pub found_run : Substage → Stage → Option (Run f) → M f (Run f)
    found_run sub stage none = throw (stage_incomplete sub.name stage.name)
    found_run sub stage (some run) = pure run

    -- The loop of `promoteRecorded`.
    unfoldable pub recorded_runs : Stage → Revision → List Substage → M f (List (Run f))
    recorded_runs stage revision [] = pure []
    recorded_runs stage revision (sub ∷ subs) = do
      record_of ← get_run env index (run_key revision.id stage.name sub.name)
      run ← found_run sub stage record_of
      runs ← recorded_runs stage revision subs
      pure (run ∷ runs)

    -- `promoteRecorded`.
    unfoldable pub promote_recorded : Stage → Revision → M f (StageReport f)
    promote_recorded stage revision = do
      runs ← recorded_runs stage revision stage.substages
      (advance, reason) ← promote stage runs
      pure (record {
        name = stage.name;
        runs = runs;
        advance = advance;
        reason = reason;
        reused = length runs;
        released = [];
      })

-- An error of `Waves`, in the stage's name.
unfoldable pub ordered :
    Stage → Result WavesError (List (List String)) → Result Error (List (List String))
ordered stage (ok groups) = ok groups
ordered stage (err (cycle among)) =
    err (World.within ("stage " ++ₛ quote stage.name) (needs_cycle among))
ordered stage (err out_of_fuel) = err no_waves

unfoldable pub waves_for : Stage → Needs → Result Error (List (List String))
waves_for stage [] = ok (substage_names stage ∷ [])
waves_for stage (need ∷ needs) = ordered stage (waves (substage_names stage) (need ∷ needs))

-- `substageWaves`.
unfoldable pub substage_waves : Stage → Result Error (List (List String))
substage_waves stage = waves_for stage (substage_needs stage)

-- `heldBy`: the first need that did not advance, and none where there is none.
unfoldable pub held_by : List String → List (String × Bool) → String
held_by [] advanced = ""
held_by (need ∷ needs) advanced =
    let rest = held_by needs advanced in if lookup_or false need advanced then rest else need
