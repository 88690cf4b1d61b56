-- ===== src/Reconcile/Promote/Recorded.antt =====
-- internal/controller/reconcilecontroller/stagephase.go: what `promoteRecorded` asks, and needs.
use forge_ci.Common.{
  Among, String, ◌≡◌, refl, sym, ◌∙◌, ◌≢◌, subst, List, [], ◌∷◌, Option, none, some, ok, ◌==◌,
  ok_inj, inl, inr, every,
}
use forge_ci.Types.{ForgeTypes, Run, Revision}
use forge_ci.Config.{Substage, Stage}
use forge_ci.Reconcile.World.{Call, state_get, evaluate_promotion, Env, History}
use forge_ci.Reconcile.World.Only.{
  Only, Only-pure, Only-throw, Only-lift, Only-ask, Only-wrap, Only-if, Only-bind,
}
use forge_ci.Reconcile.World.After.{After, After-lift, After-ask, After-wrap, After-bind, After-any}
use forge_ci.Reconcile.Index.{EngineIndex}
use forge_ci.Reconcile.State.{kind_run, get_json, decoded, get_run, run_key}
use forge_ci.Reconcile.Promote.{
  StageReport, promote, found_run, recorded_runs, promote_recorded, is_green,
}

-- A read of the state, or a question to a promotion.
abbrev pub Asks : {f : ForgeTypes} → Call f → Type 0
Asks (state_get uri kind key spec) = kind ≡ kind_run
Asks (evaluate_promotion uri input) = Unit
Asks other = ⊥

-- The state engine has no record of the substage's run, whenever it is asked.
abbrev pub IsUnrecorded :
    {f : ForgeTypes} → Env f → EngineIndex → Revision → Stage → Substage → Type 0
IsUnrecorded {f = f} env index revision stage sub =
    (h : History f)
    → env.on_state_get h index.state_uri kind_run (run_key revision.id stage.name sub.name)
        index.state_spec
      ≡ ok none

module _ {f : ForgeTypes} (env : Env f) (index : EngineIndex) where
  get_run-Only : (key : String) → Only Asks (get_run env index key)
  unfolding get_run get_json decoded
  get_run-Only key = Only-bind _ _ (Only-wrap _ _ (Only-ask _ _ refl)) (λ payload. Only-lift _)

  found_run-Only :
      (sub : Substage) (stage : Stage) (found : Option (Run f))
      → Only Asks (found_run env index sub stage found)
  unfolding found_run
  found_run-Only sub stage none = Only-throw _
  found_run-Only sub stage (some run) = Only-pure run

  recorded_runs-Only :
      (stage : Stage) (revision : Revision) (subs : List Substage)
      → Only Asks (recorded_runs env index stage revision subs)
  unfolding recorded_runs
  recorded_runs-Only stage revision [] = Only-pure _
  recorded_runs-Only stage revision (sub ∷ subs) = Only-bind _ _ (get_run-Only _) (λ found.
      Only-bind _ _ (found_run-Only sub stage found)
        (λ run. Only-bind _ _ (recorded_runs-Only stage revision subs) (λ runs. Only-pure _)))

  promote-Only : (stage : Stage) (runs : List (Run f)) → Only Asks (promote env index stage runs)
  unfolding promote
  promote-Only stage runs =
      Only-if (stage.promotion == "") _ _
        (λ unnamed. Only-if (every is_green runs) _ _ (λ on. Only-pure _) (λ off. Only-pure _))
        (λ named. Only-wrap _ _ (
          Only-bind _ _ (Only-lift _)
            (λ engine. Only-bind _ _ (Only-ask _ _ tt) (λ out. Only-pure _))))

  -- Promoting a stage over its records changes nothing: in every world `promoteRecorded` reads run
  -- records and asks the stage's promotion, and makes no other call.
  pub promote_recorded-Only :
      (stage : Stage) (revision : Revision) → Only Asks (promote_recorded env index stage revision)
  unfolding promote_recorded
  promote_recorded-Only stage revision =
      Only-bind _ _ (recorded_runs-Only stage revision stage.substages)
        (λ runs. Only-bind _ _ (promote-Only stage runs) (λ out. Only-pure _))

  get_run-none :
      (key : String) (h : History f)
      → ((h : History f)
          → env.on_state_get h index.state_uri kind_run key index.state_spec ≡ ok none)
      → After (get_run env index key) h (λ found h'. found ≡ none)
  unfolding get_run get_json decoded
  get_run-none key h absent =
      After-bind (λ payload h'. payload ≡ none) _ _ _
        (After-wrap _ _ _ (After-ask _ _ _ (λ payload e. ok_inj (sym e ∙ absent h))))
        (λ payload h' same. After-lift _ _ (λ found e. cc))

  found_run-none :
      (sub : Substage) (stage : Stage) (found : Option (Run f)) (h : History f)
      → found ≡ none
      → After (found_run env index sub stage found) h (λ run h'. ⊥)
  unfolding found_run
  found_run-none sub stage none h e = record { holds = λ run x. cc }
  found_run-none sub stage (some run) h e = cc

  recorded_runs-incomplete :
      (stage : Stage) (revision : Revision) (sub : Substage) (subs : List Substage) (h : History f)
      → Among sub subs
      → IsUnrecorded env index revision stage sub
      → After (recorded_runs env index stage revision subs) h (λ runs h'. ⊥)
  unfolding recorded_runs
  recorded_runs-incomplete stage revision sub [] h among absent = absurd among
  recorded_runs-incomplete stage revision sub (x ∷ subs) h (inl e) absent =
      After-bind (λ found h'. found ≡ none) _ _ _
        (get_run-none _ h (subst (IsUnrecorded env index revision stage) (sym e) absent))
        (λ found h1 missing.
          After-bind (λ run h'. ⊥) _ _ _ (found_run-none x stage found h1 missing)
            (λ run h2 never. absurd never))
  recorded_runs-incomplete stage revision sub (x ∷ subs) h (inr later) absent =
      After-bind _ _ _ _ (After-any _ _) (λ found h1 q.
        After-bind _ _ _ _ (After-any _ _) (λ run h2 q.
          After-bind (λ runs h'. ⊥) _ _ _
            (recorded_runs-incomplete stage revision sub subs h2 later absent)
            (λ runs h3 never. absurd never)))

  -- A stage is never promoted half run: if the state engine has no record of the run of some
  -- substage of the stage, `promoteRecorded` answers with an error, whatever the rest of the world
  -- answers.
  pub promote_recorded-incomplete :
      (stage : Stage) (revision : Revision) (sub : Substage) (h : History f)
      → Among sub stage.substages
      → IsUnrecorded env index revision stage sub
      → (report : StageReport f) → (promote_recorded env index stage revision h).0 ≢ ok report
  unfolding promote_recorded
  promote_recorded-incomplete stage revision sub h among absent report =
      (After-bind (λ runs h'. ⊥) (λ report h'. ⊥) _ _
          (recorded_runs-incomplete stage revision sub stage.substages h among absent)
          (λ runs h1 never. absurd never)).holds
        report
