-- ===== src/Reconcile/Stages.antt =====
-- internal/controller/reconcilecontroller: `applyStage` (reconcilecontroller.go), and `applyOneSubstage`
-- (stagephase.go). `Validate` refuses a stage with two substages of one name, for
-- which a name would not say whose answer it is.
pub mod Named
use forge_ci.Common.{
  String, ℕ, Bool, true, false, not, ◌&&◌, ◌||◌, List, [], ◌∷◌, ◌++◌, Option, none, some, Result,
  ok, err, ◌==◌, map, lookup, lookup_or, select, count_by, if◌then◌else◌, ◌++ₛ◌,
}
use forge_ci.Common.Text.{quote}
use forge_ci.Types.{ForgeTypes, failed, Run, Revision, ArtifactOutput}
use forge_ci.Config.{Substage, Stage, Pipeline}
use forge_ci.Reconcile.Index.{EngineIndex}
use forge_ci.Reconcile.Records.{ReleaseDecision}
use forge_ci.Reconcile.World.{
  Error, Env, M, ◌>>=◌, ◌>>◌, pure, throw, lift, wrap, attempt, clock, stage_incomplete, no_stage,
  out_of_order, not_advanced,
}
use forge_ci.Reconcile.World
use forge_ci.Reconcile.Promote.{
  StageReport, is_green, promote, promote_recorded, held_by, substage_waves,
}
use forge_ci.Reconcile.Carry.{carry_forward, uses_of}
use forge_ci.Reconcile.Publish.{is_out}
use forge_ci.Reconcile.Substages.{Answer, no_output, apply_substage}

abbrev pub substage_named : String → List Substage → Option Substage
substage_named name [] = none
substage_named name (sub ∷ subs) =
    let rest = substage_named name subs in if sub.name == name then some sub else rest

-- `at`: the last substage of a name.
abbrev pub last_named : String → List Substage → Option Substage
last_named name [] = none
last_named name (sub ∷ subs) = elim (last_named name subs) [
  | some later ↦ some later
  | none ↦ if sub.name == name then some sub else none
]

-- The run of a substage that is held.
abbrev pub held_run : {f : ForgeTypes} → Revision → Stage → Substage → ℕ → String → Run f
held_run revision stage sub started held = record {
  revision = revision.id;
  stage = stage.name;
  substage = sub.name;
  engine = sub.engine;
  status = failed;
  started_at = started;
  duration = 0;
  message = "not run: needs " ++ₛ quote held ++ₛ ", which did not pass";
  output = "";
  forge = none;
  gates = [];
}

abbrev pub Tried : ForgeTypes → Type 0
Tried f = List (String × Result Error (Answer f))

abbrev pub Answers : ForgeTypes → Type 0
Answers f = List (String × Answer f)

module _ {f : ForgeTypes} where
  -- The first substage of the stage that failed.
  unfoldable pub first_failure : List Substage → Tried f → Result Error (Unit {0})
  first_failure [] tried = ok tt
  first_failure (sub ∷ subs) tried = elim (lookup sub.name tried) [
    | some (err e) ↦ err e
    | _ ↦ first_failure subs tried
  ]

  abbrev pub with_answer : String → Result Error (Answer f) → Answers f → Answers f
  with_answer name (ok answer) answers = (name, answer) ∷ answers
  with_answer name (err e) answers = answers

  unfoldable pub answers_of : Tried f → Answers f
  answers_of [] = []
  answers_of ((name, tried) ∷ rest) = with_answer name tried (answers_of rest)

  -- `advanced`: the substages whose run is green.
  abbrev pub advanced_of : Answers f → List (String × Bool)
  advanced_of [] = []
  advanced_of ((name, answer) ∷ answers) = (name, is_green answer.0) ∷ advanced_of answers

  abbrev pub found_before : Option (Answer f) → List (Answer f) → List (Answer f)
  found_before none rest = rest
  found_before (some answer) rest = answer ∷ rest

  -- The answers in the stage's order.
  unfoldable pub in_order : List Substage → Answers f → List (Answer f)
  in_order [] answers = []
  in_order (sub ∷ subs) answers = found_before (lookup sub.name answers) (in_order subs answers)

  abbrev pub released_by : List (Answer f) → List ArtifactOutput
  released_by answers = select is_out (map (λ (a : Answer f). a.2) answers)

module _ {f : ForgeTypes} (env : Env f) (p : Pipeline) (index : EngineIndex) (revision : Revision)
    (decision : ReleaseDecision) (root : String) (carried : List f.Artifact) where
  unfoldable pub start_unless : Stage → Substage → String → M f (Result Error (Answer f))
  start_unless stage sub held =
      if held == ""
      then attempt (apply_substage env p index revision decision root carried stage sub)
      else (do
        started ← clock env
        pure (ok (held_run revision stage sub started held, false, no_output)))

  -- One substage of a wave.
  unfoldable pub try_named : Stage → List (String × Bool) → String → Option Substage → M f (Tried f)
  unfolding start_unless
  try_named stage advanced name none = pure []
  try_named stage advanced name (some sub) = do
    tried ← start_unless stage sub (held_by sub.needs advanced)
    pure ((name, tried) ∷ [])

  unfoldable pub run_wave : Stage → List (String × Bool) → List String → M f (Tried f)
  unfolding try_named
  run_wave stage advanced [] = pure []
  run_wave stage advanced (name ∷ names) = do
    first ← try_named stage advanced name (last_named name stage.substages)
    rest ← run_wave stage advanced names
    pure (first ++ rest)

  unfoldable pub run_waves : Stage → List (List String) → Answers f → M f (Answers f)
  unfolding run_wave first_failure answers_of
  run_waves stage [] answers = pure answers
  run_waves stage (wave ∷ waves) answers = do
    tried ← run_wave stage (advanced_of answers) wave
    lift (first_failure stage.substages tried)
    run_waves stage waves (answers_of tried ++ answers)

  -- `applyStage`.
  unfoldable pub apply_stage : Stage → M f (StageReport f)
  unfolding run_waves in_order
  apply_stage stage = do
    waves ← lift (substage_waves stage)
    answers ← run_waves stage waves []
    let done = in_order stage.substages answers
    let runs = map (λ (a : Answer f). a.0) done
    (advance, reason) ← promote env index stage runs
    pure (record {
      name = stage.name;
      runs = runs;
      advance = advance;
      reason = reason;
      reused = count_by (λ (a : Answer f). a.1) done;
      released = released_by done;
    })

  -- `applyOneSubstage`, once the substage is found.
  unfoldable pub apply_one : Stage → String → Option Substage → M f (StageReport f)
  apply_one stage name none =
      wrap ("substage " ++ₛ quote name ++ₛ " of stage " ++ₛ quote stage.name)
        (throw (no_stage name))
  apply_one stage name (some sub) = do
    answer ← apply_substage env p index revision decision root carried stage sub
    let green = is_green answer.0
    pure (record {
      name = stage.name;
      runs = answer.0 ∷ [];
      advance = green;
      reason =
          "substage "
          ++ₛ quote name
          ++ₛ " of stage "
          ++ₛ quote stage.name
          ++ₛ (if green then " passed" else " did not pass");
      reused = if answer.1 then 1 else 0;
      released = released_by (answer ∷ []);
    })
