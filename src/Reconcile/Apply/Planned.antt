-- ===== src/Reconcile/Apply/Planned.antt =====
-- internal/controller/reconcilecontroller/reconcilecontroller.go: what `Apply` does under a dry run,
-- and in the phase that reconciles alone.
use forge_ci.Common.{
  String, ◌≡◌, ◌⊎◌, inl, inr, sym, ◌∙◌, Bool, true, false, List, ◌==◌, ◌&&◌, ◌||◌, arith,
}
use mathlib.Core.Bool.{false≢true}
use forge_ci.Types.{ForgeTypes}
use forge_ci.Config.{Pipeline}
use forge_ci.Reconcile.Index.{EngineIndex, new_index}
use forge_ci.Reconcile.World.{Env}
use forge_ci.Reconcile.World.Only.{Only, Only-pure, Only-if, Only-bind}
use forge_ci.Reconcile.Resources.Calls.{Allowed, reconcile_resources-Only}
use forge_ci.Reconcile.Apply.{
  ApplyOptions, phase_all, phase_self_reconcile, after_resources, apply_from, apply_pipeline,
}

-- A dry run of everything or of the phase that reconciles, or that phase.
abbrev pub EndsAtResources : ApplyOptions → Type 0
EndsAtResources opts =
    (((opts.phase == phase_all || opts.phase == phase_self_reconcile) ≡ true)
      × (opts.base.dry_run ≡ true))
    ⊎ ((opts.phase == phase_self_reconcile) ≡ true)

ends :
    (opts : ApplyOptions)
    → EndsAtResources opts
    → (opts.base.dry_run ≡ true) ⊎ ((opts.phase == phase_self_reconcile) ≡ true)
ends opts (inl (phase, dry)) = inl dry
ends opts (inr phase) = inr phase

starts :
    (opts : ApplyOptions)
    → EndsAtResources opts
    → (opts.phase == phase_all || opts.phase == phase_self_reconcile) ≡ true
starts opts (inl (phase, dry)) = phase
starts opts (inr phase) = ground (arith, phase)

module _ {f : ForgeTypes} (env : Env f) where
  after_resources-Only :
      (p : Pipeline) (index : EngineIndex) (root : String) (opts : ApplyOptions)
      (done : List String × Bool × Bool)
      → (opts.base.dry_run ≡ true) ⊎ ((opts.phase == phase_self_reconcile) ≡ true)
      → Only (Allowed false opts.base) (after_resources env p index root opts done)
  unfolding after_resources
  after_resources-Only p index root opts (actions, changed, published) end =
      Only-if opts.base.dry_run _ _ (λ dry. Only-pure _)
        (λ wet.
          Only-if (changed && published) _ _ (λ on. Only-pure _)
            (λ off.
              Only-if (opts.phase == phase_self_reconcile) _ _ (λ self. Only-pure _)
                (λ other. elim end [
                  | inl dry ↦ absurd (false≢true (sym wet ∙ dry))
                  | inr self ↦ absurd (false≢true (sym other ∙ self))
                ])))

  -- A dry run of all phases at once, and the phase that only reconciles, go no further than the managers: in
  -- every world `Apply` then makes the calls of `reconcileResources` outside a bootstrap and no other.
  -- It runs no target, evaluates no gate, mints no revision and publishes nothing.
  pub apply_pipeline-Only :
      (p : Pipeline) (root : String) (opts : ApplyOptions)
      → EndsAtResources opts
      → Only (Allowed false opts.base) (apply_pipeline env p root opts)
  unfolding apply_pipeline apply_from
  apply_pipeline-Only p root opts end =
      Only-if (opts.phase == phase_all || opts.phase == phase_self_reconcile) _ _
        (λ on.
          Only-bind _ _
            (reconcile_resources-Only env (new_index p root).1 (new_index p root).0 root false
              opts.base)
            (λ done.
              after_resources-Only (new_index p root).1 (new_index p root).0 root opts done
                (ends opts end)))
        (λ off. absurd (false≢true (sym off ∙ starts opts end)))
