-- ===== src/Reconcile/Index/Resolves.antt =====
-- pkg/config/config.go against internal/controller/reconcilecontroller/index.go: what a pipeline
-- without problems spares the core.
use forge_ci.Common.{
  Among, String, ℕ, suc, ◌≡◌, ◌⊎◌, refl, subst, false, not, List, [], ◌∷◌, map, ok, ◌==◌, member,
  lookup, Bool-cases, inl, inr, if◌then◌else◌,
}
use forge_ci.Waves.{waves}
use forge_ci.Config.{
  compute, artifact, gate, promotion, Target, Substage, Stage, Pipeline, substage_names,
  substage_needs,
}
use forge_ci.Config.Problems
use forge_ci.Config.Problems.{Place, Problem, add_if, is_kebab}
use forge_ci.Config.Validate.{ports_by, require_port}
use forge_ci.Config.Stages.{
  verdict, publishes, work_problems, gate_problems, need_problems, has_none,
  substages_uses_problems, substage_problems, stage_problems, stages_problems, problems, validate,
}
use forge_ci.Reconcile.Index.{EngineIndex, index_of}
use forge_ci.Reconcile.Index.References.{
  IsTarget, IsUsed, unknown_targets-IsTarget, substages_uses_problems-IsUsed,
}
use forge_ci.Reconcile.Index.Lookup.{
  IsResolved, nil-left, nil-right, ports_by-IsResolved, require_port-IsResolved, is_artifact-some,
  otherwise, order_problems-ok,
}

-- Each engine that the substage names is one of the port it needs, and its targets are declared.
pub record Works (p : Pipeline) (index : EngineIndex) (sub : Substage) : Type 0 where
  pub engine : IsResolved index sub.engine compute ⊎ IsResolved index sub.engine artifact
  pub gates : (alias : String) → Among alias sub.gates → IsResolved index alias gate
  pub targets : (alias : String) → Among alias sub.targets → IsTarget p.targets alias

-- The stage's references resolve, and its substages have an order.
pub record Runs (p : Pipeline) (index : EngineIndex) (stage : Stage) : Type 0 where
  pub promoted : (stage.promotion == "") ≡ false → IsResolved index stage.promotion promotion
  pub works : (sub : Substage) → Among sub stage.substages → Works p index sub
  pub uses :
      (sub : Substage)
      → Among sub stage.substages
      → (text : String) → Among text sub.uses
      → IsUsed p.stages text
  pub ordered :
      (groups : List (List String)) × (waves (substage_names stage) (substage_needs stage)
        ≡ ok groups)

verdict-nil : (es : List Problem) → verdict es ≡ ok tt → es ≡ []
unfolding verdict
verdict-nil [] h = refl
verdict-nil (e ∷ es) h = cc

module _ (p : Pipeline) (root : String) where
  gate_problems-IsResolved :
      (stage sub : String) (gates : List String)
      → gate_problems (ports_by p.engines) stage sub gates ≡ []
      → (alias : String) → Among alias gates
      → IsResolved (index_of p root) alias gate
  unfolding gate_problems
  gate_problems-IsResolved stage sub [] h alias among = absurd among
  gate_problems-IsResolved stage sub (g ∷ gs) h alias (inl e) =
      subst (λ a. IsResolved (index_of p root) a gate) e
        (require_port-IsResolved p root g _ gate (nil-left _ _ h))
  gate_problems-IsResolved stage sub (g ∷ gs) h alias (inr later) =
      gate_problems-IsResolved stage sub gs (nil-right _ _ h) alias later

  work_problems-engine :
      (targets : List String) (stage : Stage) (sub : Substage)
      → work_problems (ports_by p.engines) targets stage sub ≡ []
      → IsResolved (index_of p root) sub.engine compute
        ⊎ IsResolved (index_of p root) sub.engine artifact
  unfolding work_problems publishes
  work_problems-engine targets stage sub h =
      elim (Bool-cases (publishes (ports_by p.engines) sub.engine)) [
        | inl publishing ↦
            let (got, at, same) =
              is_artifact-some (lookup sub.engine (ports_by p.engines)) publishing in
            inr (ports_by-IsResolved p root sub.engine got artifact at same)
        | inr computing ↦ inl (
            require_port-IsResolved p root sub.engine _ compute
              (otherwise _ _ computing (nil-left _ _ h)))
      ]

  substage_problems-Works :
      (targets : List String) (stage : Stage) (seen : List String) (subs : List Substage)
      → targets ≡ map (λ (t : Target). t.alias) p.targets
      → substage_problems (ports_by p.engines) targets stage seen subs ≡ []
      → (sub : Substage) → Among sub subs
      → Works p (index_of p root) sub
  unfolding substage_problems work_problems
  substage_problems-Works targets stage seen [] all h sub among = absurd among
  substage_problems-Works targets stage seen (x ∷ subs) all h sub (inl e) =
      let rest = nil-right _ _ (nil-right _ _ h) in
      subst (Works p (index_of p root)) e (record {
        engine = work_problems-engine targets stage x (nil-left _ _ rest);
        targets = unknown_targets-IsTarget p.targets stage.name x.name x.targets (
            nil-right _ _ (
              nil-right _ _ (
                subst (λ ts. work_problems (ports_by p.engines) ts stage x ≡ []) all
                  (nil-left _ _ rest))));
        gates =
            gate_problems-IsResolved stage.name x.name x.gates (nil-left _ _ (nil-right _ _ rest));
      })
  substage_problems-Works targets stage seen (x ∷ subs) all h sub (inr later) =
      let named =
        nil-right (add_if (not (is_kebab x.name)) (Problems.bad_substage_name stage.name x.name)) _
          h in
      let once =
        nil-right (add_if (member x.name seen) (Problems.substage_repeated stage.name x.name)) _
          named in
      let works = nil-right (work_problems (ports_by p.engines) targets stage x) _ once in
      let gated =
        nil-right (gate_problems (ports_by p.engines) stage.name x.name x.gates) _ works in
      let rest = nil-right (need_problems stage x.name x.needs) _ gated in
      substage_problems-Works targets stage (x.name ∷ seen) subs all rest sub later

  stage_problems-Runs :
      (targets : List String) (stages : List Stage) (i : ℕ) (seen : List String) (stage : Stage)
      → targets ≡ map (λ (t : Target). t.alias) p.targets
      → stages ≡ p.stages
      → stage_problems (ports_by p.engines) targets stages i seen stage ≡ []
      → Runs p (index_of p root) stage
  unfolding stage_problems
  stage_problems-Runs targets stages i seen stage all whole h =
      let named =
        nil-right (add_if (not (is_kebab stage.name)) (Problems.bad_stage_name i stage.name)) _ h in
      let rest =
        nil-right (add_if (member stage.name seen) (Problems.stage_repeated i stage.name)) _
          named in
      let promotes : List Problem =
        if stage.promotion == ""
        then []
        else require_port (ports_by p.engines) (Problems.at_promotion stage.name) stage.promotion
            promotion in
      let full = nil-right promotes _ rest in
      let subs =
        nil-right (add_if (has_none stage.substages) (Problems.stage_empty i stage.name)) _ full in
      let uses =
        nil-right (substage_problems (ports_by p.engines) targets stage [] stage.substages) _
          subs in
      let order = nil-right (substages_uses_problems stages i stage stage.substages) _ uses in
      record {
        promoted = λ named.
            require_port-IsResolved p root stage.promotion (Problems.at_promotion stage.name)
              promotion (otherwise (stage.promotion == "") _ named (nil-left promotes _ rest));
        works = substage_problems-Works targets stage [] stage.substages all (nil-left _ _ subs);
        uses = substages_uses_problems-IsUsed p.stages i stage stage.substages (
            subst (λ ss. substages_uses_problems ss i stage stage.substages ≡ []) whole
              (nil-left (substages_uses_problems stages i stage stage.substages) _ uses));
        ordered =
            order_problems-ok (Problems.substages_unordered stage.name)
              (waves (substage_names stage) (substage_needs stage)) order;
      }

  stages_problems-Runs :
      (targets : List String) (stages : List Stage) (i : ℕ) (seen : List String) (ss : List Stage)
      → targets ≡ map (λ (t : Target). t.alias) p.targets
      → stages ≡ p.stages
      → stages_problems (ports_by p.engines) targets stages i seen ss ≡ []
      → (stage : Stage) → Among stage ss
      → Runs p (index_of p root) stage
  unfolding stages_problems
  stages_problems-Runs targets stages i seen [] all whole h stage among = absurd among
  stages_problems-Runs targets stages i seen (s ∷ ss) all whole h stage (inl e) =
      subst (Runs p (index_of p root)) e
        (stage_problems-Runs targets stages i seen s all whole (nil-left _ _ h))
  stages_problems-Runs targets stages i seen (s ∷ ss) all whole h stage (inr later) =
      let rest = nil-right _ _ h in
      stages_problems-Runs targets stages (suc i) (s.name ∷ seen) ss all whole rest stage later

  -- A valid pipeline never surprises the core: when `Validate` accepts it, every stage's references
  -- resolve in the core's index, whatever the root: the engine of each substage is a compute or an
  -- artifact engine, each gate a gate engine, the promotion, where the stage names one, a promotion
  -- engine; each target is declared, each use names a substage of a stage of the pipeline; and the
  -- substages have an order.
  pub validate-Runs :
      (stage : Stage) → validate p ≡ ok tt → Among stage p.stages → Runs p (index_of p root) stage
  unfolding validate problems
  validate-Runs stage h among =
      let rest = nil-left _ _ (nil-right _ _ (verdict-nil (problems p) h)) in
      stages_problems-Runs _ p.stages 0 [] p.stages refl refl rest stage among
