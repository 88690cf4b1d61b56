-- ===== src/Reconcile/Resources/Calls.antt =====
-- internal/controller/reconcilecontroller/reconcilecontroller.go: which calls `reconcileResources`
-- makes.
use forge_ci.Common.{String, ◌≡◌, refl, Bool, false, List, [], ◌∷◌}
use forge_ci.Types.{ForgeTypes, Resource, Ownership}
use forge_ci.Config.{Engine, Pipeline}
use forge_ci.Reconcile.World.{Call, state_get, state_put, declare, reconcile, Env}
use forge_ci.Reconcile.World.Only.{
  Only, Only-pure, Only-lift, Only-ask, Only-wrap, Only-if, Only-bind,
}
use forge_ci.Reconcile.Index.{EngineIndex}
use forge_ci.Reconcile.State.{
  kind_owned, owned_key, get_json, put_json, decoded, read_ownership, write_ownership,
}
use forge_ci.Reconcile.Resources.{
  Options, Progress, ask_engine, ask_engines, ask_manager, ask_managers, reconcile_resources,
}

-- Reads of the state, questions to the engines, calls of the managers under the options and the
-- bootstrap flag that were given, and, unless it is a dry run, a write of the ownership record.
abbrev pub Allowed : {f : ForgeTypes} → Bool → Options → Call f → Type 0
Allowed bootstrap opts (state_get uri kind key spec) = Unit
Allowed bootstrap opts (state_put uri kind key payload spec) =
    (opts.dry_run ≡ false) × (kind ≡ kind_owned) × (key ≡ owned_key)
Allowed bootstrap opts (declare uri input) = Unit
Allowed bootstrap opts (reconcile uri input) =
    (input.dry_run ≡ opts.dry_run) × (input.force ≡ opts.force) × (input.bootstrap ≡ bootstrap)
Allowed bootstrap opts other = ⊥

module _ {f : ForgeTypes} (env : Env f) (p : Pipeline) (index : EngineIndex) (root : String)
    (bootstrap : Bool) (opts : Options) where
  read_ownership-Only : Only (Allowed bootstrap opts) (read_ownership env index)
  unfolding read_ownership get_json decoded
  read_ownership-Only = Only-bind _ _ (Only-wrap _ _ (Only-ask _ _ tt)) (λ payload. Only-lift _)

  ask_engines-Only :
      (engines : List Engine) (by_manager : List (String × List Resource))
      → Only (Allowed bootstrap opts) (ask_engines env p index root engines by_manager)
  unfolding ask_engines ask_engine
  ask_engines-Only [] by_manager = Only-pure by_manager
  ask_engines-Only (engine ∷ engines) by_manager =
      Only-bind _ _ (Only-wrap _ _ (Only-ask _ _ tt)) (λ declared. ask_engines-Only engines _)

  ask_managers-Only :
      (owned : List Ownership) (by_manager : List (String × List Resource)) (aliases : List String)
      (so_far : Progress)
      → Only
          (Allowed bootstrap opts)
          (ask_managers env p index root bootstrap opts owned by_manager aliases so_far)
  unfolding ask_managers ask_manager
  ask_managers-Only owned by_manager [] so_far = Only-pure so_far
  ask_managers-Only owned by_manager (alias ∷ aliases) so_far = Only-bind _ _ (Only-lift _) (λ m.
      Only-bind _ _ (Only-wrap _ _ (Only-ask _ _ (refl, refl, refl)))
        (λ out. ask_managers-Only owned by_manager aliases _))

  write_ownership-Only :
      (merged : List Ownership)
      → opts.dry_run ≡ false
      → Only (Allowed bootstrap opts) (write_ownership env index merged)
  unfolding write_ownership put_json
  write_ownership-Only merged h = Only-wrap _ _ (Only-ask _ _ (h, refl, refl))

  -- In every world, `reconcileResources` evaluates no gate and no promotion, hands every manager
  -- the caller's bootstrap flag and options, and writes nothing to the state but the ownership
  -- record, and that only when it is no dry run.
  pub reconcile_resources-Only :
      Only (Allowed bootstrap opts) (reconcile_resources env p index root bootstrap opts)
  unfolding reconcile_resources
  reconcile_resources-Only = Only-bind _ _ read_ownership-Only (λ owned.
      Only-bind _ _ (ask_engines-Only p.engines []) (λ by_manager.
        Only-bind _ _ (ask_managers-Only owned by_manager _ _) (λ done.
          Only-bind _ _
            (Only-if opts.dry_run _ _ (λ dry. Only-pure tt)
              (λ wet. write_ownership-Only done.merged wet))
            (λ written. Only-pure _))))
