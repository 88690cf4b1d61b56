-- ===== src/Reconcile/Promote/Gates.antt =====
-- internal/controller/reconcilecontroller/reconcilecontroller.go: what `evaluateGates` hands back.
use forge_ci.Common.{String, ◌≡◌, refl, ap, List, [], ◌∷◌, map, ok}
use forge_ci.Types.{ForgeTypes, GateResult, Run}
use forge_ci.Config.{Substage}
use forge_ci.Reconcile.World.{Env, History}
use forge_ci.Reconcile.World.After.{After, After-pure, After-bind, After-any}
use forge_ci.Reconcile.Index.{EngineIndex}
use forge_ci.Reconcile.Promote.{evaluate_gates_from, evaluate_gates}

abbrev pub aliases_of : List GateResult → List String
aliases_of results = map (λ (result : GateResult). result.alias) results

module _ {f : ForgeTypes} (env : Env f) (index : EngineIndex) where
  evaluate_gates_from-aliases_of :
      (run : Run f) (aliases : List String) (h : History f)
      → After
          (evaluate_gates_from env index run aliases)
          h
          (λ results h'. aliases_of results ≡ aliases)
  unfolding evaluate_gates_from
  evaluate_gates_from-aliases_of run [] h = After-pure _ refl
  evaluate_gates_from-aliases_of run (alias ∷ aliases) h =
      After-bind _ _ _ _ (After-any _ _) (λ engine h1 q.
        After-bind _ _ _ _ (After-any _ _) (λ result h2 q.
          After-bind _ _ _ _ (evaluate_gates_from-aliases_of run aliases h2)
            (λ results h3 same. After-pure _ (ap (λ names. alias ∷ names) same))))

  -- When `evaluateGates` answers, it has one result for each gate of the substage, in the
  -- pipeline's order and under the pipeline's alias, whatever alias the gate's engine answered.
  pub evaluate_gates-aliases_of :
      (sub : Substage) (run : Run f) (h : History f) (results : List GateResult)
      → (evaluate_gates env index sub run h).0 ≡ ok results
      → aliases_of results ≡ sub.gates
  unfolding evaluate_gates
  evaluate_gates-aliases_of sub run h = (evaluate_gates_from-aliases_of run sub.gates h).holds
