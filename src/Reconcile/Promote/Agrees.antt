-- ===== src/Reconcile/Promote/Agrees.antt =====
-- internal/controller/reconcilecontroller/reconcilecontroller.go against
-- internal/controller/promotioncontroller/promotioncontroller.go: the core's own rule for a stage that
-- names no promotion, and the promotion engine.
use forge_ci.Common.{
  String, ◌≡◌, refl, sym, ap, ◌∙◌, Bool, false, List, Option, none, some, Result, ok, err, ◌==◌,
  ◌<◌, length, lookup, every, All, inl, inr, Bool-cases,
}
use forge_ci.Types.{ForgeTypes, Run, PromotionInput, PromotionOutput}
use forge_ci.Promotion.{PromotionError, billion}
use forge_ci.Promotion
use forge_ci.Promotion.Threshold.{IsNamed, all_passed, verdict, evaluate-every}
use forge_ci.Config.{Stage, Engine, promotion}
use forge_ci.Reconcile.World.{Env, Error, History, ◌>>=◌, ask, lift, wrap}
use forge_ci.Reconcile.Index.{EngineIndex, require, or_empty}
use forge_ci.Reconcile.Promote.{is_green, promote}

-- What the engine's process answers for what its controller returns.
unfoldable pub served : Result PromotionError PromotionOutput → Result String PromotionOutput
served (ok out) = ok out
served (err e) = err "spec.threshold must be a percentage between 0 and 100"

-- Whether the stage advances; `none` where promoting it failed.
abbrev pub advances : Result Error (Bool × String) → Option Bool
advances (ok (advance, reason)) = some advance
advances (err e) = none

served-verdict :
    (r : Result PromotionError PromotionOutput) (b : Bool)
    → verdict r ≡ some b
    → (out : PromotionOutput) × (served r ≡ ok out) × (out.advance ≡ b)
unfolding served
served-verdict (ok out) b e = (out, refl, cc)
served-verdict (err x) b e = cc

module _ {f : ForgeTypes} where
  built_in :
      (env : Env f) (index : EngineIndex) (stage : Stage) (runs : List (Run f)) (h : History f)
      → stage.promotion ≡ ""
      → advances (promote env index stage runs h).0 ≡ some (every all_passed runs)
  unfolding promote is_green
  built_in env index stage runs h unnamed = elim (Bool-cases (every all_passed runs)) [
    | inl on ↦ rw (unnamed, on)
    | inr off ↦ rw (unnamed, off)
  ]

  engine_side :
      (env : Env f) (index : EngineIndex) (stage : Stage) (runs : List (Run f)) (h : History f)
      (engine : Engine) (out : PromotionOutput)
      → (stage.promotion == "") ≡ false
      → require index stage.promotion promotion ≡ ok engine
      → env.on_promotion h engine.engine
          (record { stage = stage.name; runs = runs; spec = or_empty engine.spec })
        ≡ ok out
      → advances (promote env index stage runs h).0 ≡ some out.advance
  unfolding promote wrap lift ask ◌>>=◌
  engine_side env index stage runs h engine out named required answered =
      rw (named, required, answered) refl

  -- A stage that names no promotion advances exactly when the promotion engine would let it: take
  -- two stages and the same runs, one or more and fewer than a thousand million, whose gates
  -- have names; if the second stage names a promotion engine that the pipeline declares, that serves
  -- the threshold controller's answers, and that sets no threshold, both stages advance or neither.
  pub promote-agrees :
      (env : Env f) (index : EngineIndex) (plain staged : Stage) (runs : List (Run f))
      (h : History f) (engine : Engine)
      → plain.promotion ≡ ""
      → (staged.promotion == "") ≡ false
      → require index staged.promotion promotion ≡ ok engine
      → ((input : PromotionInput f)
          → env.on_promotion h engine.engine input ≡ served (Promotion.evaluate input))
      → lookup "threshold" (or_empty engine.spec) ≡ none
      → 0 < length runs
      → length runs < billion
      → All IsNamed runs
      → advances (promote env index plain runs h).0 ≡ advances (promote env index staged runs h).0
  promote-agrees env index plain staged runs h engine unnamed named required serves unset nonempty
        short gates =
      let input : PromotionInput f = record {
        stage = staged.name;
        runs = runs;
        spec = or_empty engine.spec;
      } in
      let (out, e, same) =
        served-verdict (Promotion.evaluate input) (every all_passed runs)
          (evaluate-every input nonempty short gates unset) in
      built_in env index plain runs h unnamed
      ∙ sym (
          engine_side env index staged runs h engine out named required (serves input ∙ e)
          ∙ ap some same)
