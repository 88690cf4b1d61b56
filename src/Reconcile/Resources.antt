-- ===== src/Reconcile/Resources.antt =====
-- internal/controller/reconcilecontroller/reconcilecontroller.go: `reconcileResources`, which asks
-- every engine what it needs, and every manager to bring that about.
pub mod Calls
pub mod Kept
use forge_ci.Common.{
  String, Bool, true, false, not, ◌||◌, List, [], ◌∷◌, ◌++◌, Option, ◌==◌, map, select, lookup_or,
  if◌then◌else◌, ◌++ₛ◌,
}
use forge_ci.Common.Sort.{sort_strings}
use forge_ci.Common.Text.{quote}
use forge_ci.Types.{ForgeTypes, Spec, text, Resource, Ownership, ReconcileInput, ReconcileOutput}
use forge_ci.Config.{Repo, Substage, Stage, Engine, Manager, Pipeline, commit_prefix}
use forge_ci.Reconcile.World.{
  DeclaredSubstage, DeclaredStage, DeclareInput, Env, M, ◌>>=◌, ◌>>◌, pure, ask, wrap, lift,
  declare, reconcile,
}
use forge_ci.Reconcile.Index.{EngineIndex, or_empty, manager}
use forge_ci.Reconcile.State.{read_ownership, write_ownership}

-- The options of an apply that this part reads.
pub record Options : Type 0 where
  pub dry_run : Bool
  pub force : Bool

unfoldable pub declared_stages : Pipeline → List DeclaredStage
declared_stages p =
    map
      (λ (stage : Stage). record {
        name = stage.name;
        display_name = stage.display_name;
        substages =
            map
              (λ (sub : Substage). record {
                name = sub.name;
                display_name = sub.display_name;
                needs = sub.needs;
                uses = sub.uses;
              })
              stage.substages;
      })
      p.stages

unfoldable pub declared_repos : Pipeline → List String
declared_repos p = map (λ (repo : Repo). repo.name) p.repos

-- `byManager[alias] = append(byManager[alias], resources...)`, each key once.
unfoldable pub add_resources :
    String → List Resource → List (String × List Resource) → List (String × List Resource)
add_resources alias rs [] = (alias, rs) ∷ []
add_resources alias rs ((key, held) ∷ later) =
    let rest = add_resources alias rs later in
    if key == alias then (key, held ++ rs) ∷ later else (key, held) ∷ rest

-- `merged[o.Resource] = o`, each key once.
unfoldable pub merge_owned : List Ownership → List Ownership → List Ownership
merge_owned [] merged = merged
merge_owned (o ∷ os) merged =
    merge_owned os (o ∷ select (λ (held : Ownership). not (held.resource == o.resource)) merged)

-- What the managers answered so far.
pub record Progress : Type 0 where
  pub actions : List String
  pub changed : Bool
  pub published : Bool
  pub merged : List Ownership

module _ {f : ForgeTypes} (env : Env f) (p : Pipeline) (index : EngineIndex) (root : String) where
  unfoldable pub ask_engine : Engine → M f (List Resource)
  ask_engine engine =
      let input : DeclareInput = record {
        spec = or_empty engine.spec;
        root = root;
        stages = declared_stages p;
        repos = declared_repos p;
      } in
      wrap ("asking engine " ++ₛ quote engine.alias ++ₛ " what it needs")
        (ask (declare engine.engine input) (λ h. env.on_declare h engine.engine input))

  unfoldable pub ask_engines :
      List Engine → List (String × List Resource) → M f (List (String × List Resource))
  ask_engines [] by_manager = pure by_manager
  ask_engines (engine ∷ engines) by_manager = do
    declared ← ask_engine engine
    ask_engines engines (add_resources engine.manager declared by_manager)

  unfoldable pub ask_manager :
      Bool → Options → List Ownership → String → List Resource → Manager → M f ReconcileOutput
  ask_manager bootstrap opts owned alias resources m =
      let input : ReconcileInput = record {
        manager = alias;
        resources = resources;
        owned = owned;
        bootstrap = bootstrap;
        spec = ("root", text root) ∷ or_empty m.spec;
        dry_run = opts.dry_run;
        force = opts.force;
        commit_prefix = commit_prefix p.versioning;
      } in
      wrap ("manager " ++ₛ quote alias)
        (ask (reconcile m.engine input) (λ h. env.on_reconcile h m.engine input))

  unfoldable pub ask_managers :
      Bool
      → Options
      → List Ownership
      → List (String × List Resource)
      → List String
      → Progress
      → M f Progress
  ask_managers bootstrap opts owned by_manager [] so_far = pure so_far
  ask_managers bootstrap opts owned by_manager (alias ∷ aliases) so_far = do
    m ← lift (manager index alias)
    out ← ask_manager bootstrap opts owned alias (lookup_or [] alias by_manager) m
    ask_managers bootstrap opts owned by_manager aliases (record {
      actions = so_far.actions ++ out.actions;
      changed = so_far.changed || out.changed;
      published = so_far.published || out.published;
      merged = merge_owned out.owned so_far.merged;
    })

  -- `reconcileResources`.
  unfoldable pub reconcile_resources : Bool → Options → M f (List String × Bool × Bool)
  reconcile_resources bootstrap opts = do
    owned ← read_ownership env index
    by_manager ← ask_engines p.engines []
    done ←
        ask_managers bootstrap opts owned by_manager
          (sort_strings (map (λ entry. entry.0) by_manager))
          (record {
            actions = [];
            changed = false;
            published = false;
            merged = merge_owned owned [];
          })
    (if opts.dry_run then pure tt else write_ownership env index done.merged)
    pure (done.actions, done.changed, done.published)
