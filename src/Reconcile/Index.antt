-- ===== src/Reconcile/Index.antt =====
-- internal/controller/reconcilecontroller/index.go: the lookups that the core makes out of the
-- pipeline. The specs of a pipeline are maps of their own, but the index shares them with it:
-- `newIndex` writes the root into the state engine's spec, and `p.Engines` sees it too.
pub mod Lookup
pub mod References
pub mod Resolves
use forge_ci.Common.{
  String, Bool, false, not, ◌&&◌, ◌||◌, List, [], ◌∷◌, ◌++◌, Option, none, some, Result, ok, err,
  ◌==◌, lookup, has_key, if◌then◌else◌,
}
use forge_ci.Types.{Spec, Value, text}
use forge_ci.Config.{Port, port_text, Manager, Engine, Target, Pipeline}
use forge_ci.Reconcile.World.{Error, engine_undeclared, manager_undeclared, wrong_port}
use forge_ci.Types

unfoldable pub or_empty : Option Spec → Spec
or_empty none = []
or_empty (some spec) = spec

-- Each loop assigns in order: the last of an alias stands in front.
unfoldable pub engines_by : List Engine → List (String × Engine)
engines_by [] = []
engines_by (e ∷ es) = engines_by es ++ (e.alias, record e { spec = some (or_empty e.spec) }) ∷ []

unfoldable pub managers_by : List Manager → List (String × Manager)
managers_by [] = []
managers_by (m ∷ ms) = managers_by ms ++ (m.alias, record m { spec = some (or_empty m.spec) }) ∷ []

unfoldable pub targets_by : List Target → List (String × Target)
targets_by [] = []
targets_by (t ∷ ts) = targets_by ts ++ (t.alias, t) ∷ []

-- `engineIndex`.
pub record EngineIndex : Type 0 where
  pub engines : List (String × Engine)
  pub managers : List (String × Manager)
  pub targets_by : List (String × Target)
  pub state_alias : String
  pub state_uri : String
  pub state_spec : Spec

unfoldable pub with_root : String → Spec → Spec
with_root root spec = if has_key "root" spec || root == "" then spec else ("root", text root) ∷ spec

unfoldable pub declares : String → List Engine → Bool
declares alias [] = false
declares alias (e ∷ es) = e.alias == alias || declares alias es

-- The pipeline's engines once the index has written into the state engine's spec: a spec that the
-- file leaves out is no map that the two share.
unfoldable pub share_root : (state root : String) → List Engine → List Engine
share_root state root [] = []
share_root state root (e ∷ es) =
    let rest = share_root state root es in
    let written = record e {
      spec = elim e.spec [ none ↦ none | some spec ↦ some (with_root root spec) ];
    } in
    if e.alias == state && not (declares state es) then written ∷ rest else e ∷ rest

-- The index, once the engine of `p.State` is looked up.
unfoldable pub index_with : Pipeline → String → Option Engine → EngineIndex
index_with p root (some state) =
    let spec = with_root root (or_empty state.spec) in
    record {
      engines = (p.state, record state { spec = some spec }) ∷ engines_by p.engines;
      managers = managers_by p.managers;
      targets_by = targets_by p.targets;
      state_alias = state.alias;
      state_uri = state.engine;
      state_spec = spec;
    }
index_with p root none = record {
  engines = engines_by p.engines;
  managers = managers_by p.managers;
  targets_by = targets_by p.targets;
  state_alias = "";
  state_uri = "";
  state_spec = with_root root [];
}

unfoldable pub index_of : Pipeline → String → EngineIndex
index_of p root = index_with p root (lookup p.state (engines_by p.engines))

-- `newIndex`: the index, and the pipeline that shares its specs.
unfoldable pub new_index : Pipeline → String → EngineIndex × Pipeline
new_index p root = (index_of p root, record p { engines = share_root p.state root p.engines })

-- `engineIndex.require`, once the alias is looked up.
unfoldable pub engine_of : String → Port → Option Engine → Result Error Engine
engine_of alias want none = err (engine_undeclared alias)
engine_of alias want (some engine) =
    if port_text engine.port == port_text want then ok engine else err (wrong_port alias)

unfoldable pub require : EngineIndex → String → Port → Result Error Engine
require index alias want = engine_of alias want (lookup alias index.engines)

-- `engineIndex.manager`.
unfoldable pub manager : EngineIndex → String → Result Error Manager
manager index alias = elim (lookup alias index.managers) [
  | none ↦ err (manager_undeclared alias)
  | some m ↦ ok m
]

-- `engineIndex.targets`.
unfoldable pub targets : EngineIndex → List String → List Types.Target
targets index [] = []
targets index (alias ∷ aliases) =
    let rest = targets index aliases in
    elim (lookup alias index.targets_by) [
      | none ↦ rest
      | some t ↦
          record { alias = t.alias; binary = t.binary; args = t.args; in_repos = t.in_repos } ∷ rest
    ]
