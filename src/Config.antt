-- ===== src/Config.antt =====
-- pkg/config/config.go: the pipeline file. A spec that the file leaves out is `none`, Go's nil map,
-- which is not the empty map where the code writes into it.
pub mod Problems
pub mod Validate
pub mod Stages
use forge_ci.Common.{
  String, Bool, true, false, List, [], ◌∷◌, Option, some, ◌==◌, map, lookup, if◌then◌else◌,
}
use forge_ci.Common.Text.{is_blank}
use forge_ci.Types.{Spec, list, texts}
use forge_ci.Waves.{Needs}
use forge_ci.Version.Classify.{Semantic}

pub data Port : Type 0 where
  compute state trigger gate promotion artifact : Port
  unknown : String → Port

-- A `Port` is a string.
unfoldable pub port_text : Port → String
port_text compute = "compute"
port_text state = "state"
port_text trigger = "trigger"
port_text gate = "gate"
port_text promotion = "promotion"
port_text artifact = "artifact"
port_text (unknown name) = name

pub record Versioning : Type 0 where
  pub tag_prefix : String
  pub strategy : String
  pub cap_to : String
  pub semantic : Semantic
  pub ignore_paths : List String
  pub self_reconcile_commit_prefix : String

abbrev pub default_commit_prefix : String
default_commit_prefix = "forge-ci:"

-- `Versioning.CommitPrefix`.
unfoldable pub commit_prefix : Versioning → String
commit_prefix v =
    if is_blank v.self_reconcile_commit_prefix
    then default_commit_prefix
    else v.self_reconcile_commit_prefix

pub record Repo : Type 0 where
  pub name : String
  pub url : String
  pub ref : String
  pub needs : List String

pub record Manager : Type 0 where
  pub alias : String
  pub engine : String
  pub spec : Option Spec

pub record Engine : Type 0 where
  pub alias : String
  pub port : Port
  pub engine : String
  pub manager : String
  pub spec : Option Spec

pub record Target : Type 0 where
  pub alias : String
  pub binary : String
  pub args : List String
  pub in_repos : List String

pub record Substage : Type 0 where
  pub name : String
  pub display_name : String
  pub engine : String
  pub targets : List String
  pub gates : List String
  pub params : List (String × String)
  pub sync : Bool
  pub needs : List String
  pub uses : List String

pub record Stage : Type 0 where
  pub name : String
  pub display_name : String
  pub promotion : String
  pub substages : List Substage

pub record Pipeline : Type 0 where
  pub name : String
  pub versioning : Versioning
  pub repos : List Repo
  pub managers : List Manager
  pub engines : List Engine
  pub state : String
  pub triggers : List String
  pub targets : List Target
  pub stages : List Stage

-- `Stage.HasSubstage`.
unfoldable pub has_substage : String → List Substage → Bool
has_substage name [] = false
has_substage name (sub ∷ subs) =
    let rest = has_substage name subs in if sub.name == name then true else rest

-- `Stage.SubstageNames`.
unfoldable pub substage_names : Stage → List String
substage_names stage = map (λ (sub : Substage). sub.name) stage.substages

-- An assignment to a key of the `needs` map: a later one of the same key wins.
unfoldable pub needs_from : Needs → List Substage → Needs
needs_from needs [] = needs
needs_from needs (sub ∷ subs) =
    needs_from (elim sub.needs [ [] ↦ needs | n ∷ ns ↦ (sub.name, n ∷ ns) ∷ needs ]) subs

-- `Stage.SubstageNeeds`.
unfoldable pub substage_needs : Stage → Needs
substage_needs stage = needs_from [] stage.substages

-- `IgnoreRepos`.
unfoldable pub ignore_repos : Spec → List String
ignore_repos spec = elim (lookup "ignoreRepos" spec) [ some (list vs) ↦ texts vs | _ ↦ [] ]
