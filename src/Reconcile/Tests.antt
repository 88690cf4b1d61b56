-- ===== src/Reconcile/Tests.antt =====
-- Runs of the core, and the theorems at them.
use forge_ci.Common.{
  String, ◌≡◌, ◌≢◌, refl, true, false, List, [], ◌∷◌, none, some, ok, err, ◌==◌, eq_iff, arith,
  if◌then◌else◌, inl, inr,
}
use mathlib.Core.List.{Perm, flatten}
use forge_ci.Waves.Declared.{Earlier}
use forge_ci.Types.{ForgeTypes, Run, passed, pending, Ownership, Resource, Revision}
use forge_ci.Promotion
use forge_ci.Config.{
  Port, state, compute, gate, promotion, Engine, Substage, Stage, Pipeline, substage_names,
  substage_needs, needs_from, port_text, commit_prefix,
}
use forge_ci.Config.{has_substage}
use forge_ci.Config.Problems.{
  versioning_problems, add_if, is_kebab, is_uri, is_cap, is_strategy, is_level, semantic_empty,
  ignore_path_problems,
}
use forge_ci.Config.Validate.{
  repo_problems, repo_need_problems, repos_need_problems, repo_needs, order_problems, uri_problems,
  manager_problems, is_port, ignore_problems, engine_problems, uncalled_problems, ports_by,
  port_problems, require_port, trigger_problems, in_problems, target_problems,
}
use forge_ci.Config.Stages.{
  validate, verdict, problems, front_problems, is_artifact, publishes, unknown_targets,
  gate_problems, need_problems, work_problems, substage_problems, stage_before, use_problems,
  uses_problems, substages_uses_problems, stage_problems, stages_problems, syncs, any_syncs,
}
use forge_ci.Reconcile.Index.Resolves.{Runs, validate-Runs}
use forge_ci.Waves.{singletons}
use forge_ci.Common.Text.{trim_space}
use forge_ci.Waves.{waves, waves_loop, next_wave, ready, waits_on, without, any_edge, any_edge_from}
use forge_ci.Reconcile.World.{Env, ◌>>=◌, ask, wrap, lift}
use forge_ci.Reconcile.World.Only.{Only}
use forge_ci.Reconcile.Index.{
  EngineIndex, index_of, index_with, engine_of, require, engines_by, managers_by, or_empty, manager,
  with_root,
}
use forge_ci.Reconcile.State.{
  kind_owned, get_json, put_json, decoded, read_ownership, write_ownership,
}
use forge_ci.Reconcile.Resources.{
  Options, reconcile_resources, ask_engine, ask_engines, ask_manager, ask_managers, add_resources,
  merge_owned, declared_repos, declared_stages,
}
use forge_ci.Reconcile.Resources.Calls.{Allowed, reconcile_resources-Only}
use forge_ci.Reconcile.Resources.Kept.{KeepsOwned, reconcile_resources-KeepsOwned}
use forge_ci.Reconcile.Promote.{
  evaluate_gates_from, waves_for, ordered, evaluate_gates, promote, promote_recorded,
  substage_waves,
}
use forge_ci.Reconcile.Promote.Gates.{aliases_of, evaluate_gates-aliases_of}
use forge_ci.Reconcile.Promote.Agrees.{served, advances, promote-agrees}
use forge_ci.Reconcile.Promote.Recorded.{Asks, promote_recorded-Only, promote_recorded-incomplete}
use forge_ci.Reconcile.Promote.Order.{substage_waves-IsOrder}

abbrev pub forge : ForgeTypes
forge = record { Artifact = String; TestReport = String }

abbrev pub engine : String → Port → Engine
engine alias port = record {
  alias = alias;
  port = port;
  engine = alias;
  manager = "files";
  spec = none;
}

abbrev pub substage : String → List String → Substage
substage name needs = record {
  name = name;
  display_name = "";
  engine = "here";
  targets = [];
  gates = "approve" ∷ [];
  params = [];
  sync = false;
  needs = needs;
  uses = [];
}

abbrev pub stage : String → String → List Substage → Stage
stage name advanced_by subs = record {
  name = name;
  display_name = "";
  promotion = advanced_by;
  substages = subs;
}

abbrev pub build : Stage
build = stage "build" "" (substage "test" ("compile" ∷ []) ∷ substage "compile" [] ∷ [])

abbrev pub pipeline : Pipeline
pipeline = record {
  name = "factory";
  versioning = record {
    tag_prefix = "";
    strategy = "semantic";
    cap_to = "v0";
    semantic = record { major = []; minor = []; patch = []; ignore = []; unmatched = "" };
    ignore_paths = [];
    self_reconcile_commit_prefix = "";
  };
  repos = [];
  managers = record { alias = "files"; engine = "ci-manager-local"; spec = none } ∷ [];
  engines =
      engine "store" state
      ∷ engine "here" compute
      ∷ engine "approve" gate
      ∷ engine "all" promotion
      ∷ [];
  state = "store";
  triggers = [];
  targets = [];
  stages = build ∷ [];
}

abbrev index : EngineIndex
index = index_of pipeline "."

abbrev pub owned : List Ownership
owned = record { resource = "file/ci"; manager = "files" } ∷ []

abbrev pub workflow : Resource
workflow = record { kind = "file"; name = "workflow"; bootstrap_only = false; spec = [] }

-- A state engine that has the ownership record and no run, a manager that takes what it is asked.
abbrev pub env : Env forge
env = record {
  on_state_get = λ h uri kind key spec. if kind == kind_owned then ok (some "owned") else ok none;
  on_state_put = λ h uri kind key payload spec. ok tt;
  on_declare = λ h uri input. ok (workflow ∷ []);
  on_reconcile = λ h uri input. ok (record {
    owned = record { resource = "file/workflow"; manager = "files" } ∷ [];
    actions = "wrote workflow" ∷ [];
    changed = true;
    published = false;
  });
  on_gate = λ h uri input. ok (record { alias = "itself"; status = passed; message = "" });
  on_promotion = λ h uri input. served (Promotion.evaluate input);
  on_latest_tag = λ h dir prefix. ok "v0.3.0";
  on_subjects_since = λ h dir tag. ok ("fix: read" ∷ []);
  on_tree_hash = λ h dir ignore. ok "tree";
  on_head_sha = λ h dir. ok "sha";
  on_worktree_hash = λ h dir exclude. ok "";
  on_read_file = λ h path. err "no such file";
  on_poll =
      λ h uri spec. ok (record { changed = true; reason = "new commits"; fingerprint = "two" });
  on_artifact_get = λ h uri input. ok input.artifacts;
  on_artifact_put = λ h uri input. ok input.artifacts;
  on_run_targets =
      λ h uri input. ok (record { status = passed; message = ""; output = ""; forge = none });
  on_publish = λ h uri input.
      ok (record { published = true; url = ""; reason = ""; tagged = []; index = "" });
  on_file_exists = λ h path. ok false;
  on_digest = λ h path. ok "digest";
  built_file = λ artifact. record {
    name = artifact;
    location = artifact;
    os = "linux";
    arch = "amd64";
    is_binary = true;
  };
  decode_index = λ written. none;
  decode_locks = λ written. none;
  encode_lock = λ revision path sha256 lockfile. lockfile;
  encode_run = λ run. run.substage;
  now = λ h. 0;
  sha256_hex = λ text. "0123456789abcdef";
  decode_manifest = λ written. none;
  encode_revision = λ revision. revision.id;
  decode_revision = λ written. none;
  encode_owned = λ os. "owned";
  decode_owned = λ written. some owned;
  decode_run = λ written. none;
  encode_release = λ rec. rec.version;
  decode_release = λ written. none;
  encode_decision = λ d. d.version;
  decode_decision = λ written. none;
}

program : Unit {0}
unfolding ◌>>=◌ ask wrap lift reconcile_resources index_of index_with engine_of engines_by
    managers_by or_empty port_text manager require with_root get_json put_json decoded
    read_ownership write_ownership ask_engine ask_engines ask_manager ask_managers add_resources
    merge_owned declared_repos declared_stages commit_prefix trim_space evaluate_gates
    evaluate_gates_from
program = tt

waves_program : Unit {0}
unfolding substage_waves waves_for ordered substage_needs needs_from substage_names waves waves_loop
    next_wave ready waits_on without any_edge any_edge_from
waves_program = tt

abbrev wet : Options
wet = record { dry_run = false; force = false }

abbrev dry : Options
dry = record { dry_run = true; force = false }

reconcile_resources-wet :
    (reconcile_resources env pipeline index "." true wet []).0
    ≡ ok ("wrote workflow" ∷ [], true, false)
unfolding program
reconcile_resources-wet = refl

reconcile_resources-Only_example :
    Only (Allowed true dry) (reconcile_resources env pipeline index "." true dry)
reconcile_resources-Only_example = reconcile_resources-Only env pipeline index "." true dry

reconcile_resources-KeepsOwned_example :
    KeepsOwned env index owned (reconcile_resources env pipeline index "." true wet []).1
reconcile_resources-KeepsOwned_example =
    reconcile_resources-KeepsOwned env pipeline index "." true wet [] "owned" owned refl refl refl
      ("wrote workflow" ∷ [], true, false) reconcile_resources-wet

abbrev green : Run forge
green = record {
  revision = "r1";
  stage = "build";
  substage = "compile";
  engine = "here";
  status = passed;
  started_at = 0;
  duration = 0;
  message = "";
  output = "";
  forge = none;
  gates = record { alias = "approve"; status = pending; message = "" } ∷ [];
}

evaluate_gates_results :
    (evaluate_gates env index (substage "compile" []) green []).0
    ≡ ok (record { alias = "approve"; status = passed; message = "" } ∷ [])
unfolding program
evaluate_gates_results = refl

evaluate_gates-aliases_of_example :
    aliases_of (record { alias = "approve"; status = passed; message = "" } ∷ []) ≡ "approve" ∷ []
evaluate_gates-aliases_of_example =
    evaluate_gates-aliases_of env index (substage "compile" []) green [] _ evaluate_gates_results

all_found : require index "all" promotion ≡ ok (record (engine "all" promotion) { spec = some [] })
unfolding program
all_found = refl

approve-named : ◌≢◌ {A = String} "approve" ""
approve-named = ground (arith, eq_iff "approve" "")

promote-agrees_example :
    advances (promote env index build (green ∷ []) []).0
    ≡ advances (promote env index (stage "build" "all" build.substages) (green ∷ []) []).0
unfolding or_empty
promote-agrees_example =
    promote-agrees env index build (stage "build" "all" build.substages) (green ∷ []) []
      (record (engine "all" promotion) { spec = some [] }) refl refl all_found (λ input. refl) refl
      (omega arith) (omega arith) ((approve-named, tt), tt)

abbrev revision : Revision
revision = record { id = "r1"; created_at = 0; repos = []; dirty = [] }

promote_recorded-Only_example : Only Asks (promote_recorded env index build revision)
promote_recorded-Only_example = promote_recorded-Only env index build revision

promote_recorded-incomplete_example :
    (promote_recorded env index build revision []).0
    ≢ ok (record {
      name = "build";
      runs = [];
      advance = true;
      reason = "";
      reused = 0;
      released = [];
    })
promote_recorded-incomplete_example =
    promote_recorded-incomplete env index build revision (substage "compile" []) [] (inr (inl refl))
      (λ h. refl) _

substage_waves-build : substage_waves build ≡ ok (("compile" ∷ []) ∷ ("test" ∷ []) ∷ [])
unfolding waves_program
substage_waves-build = refl

compile-test : ◌≢◌ {A = String} "compile" "test"
compile-test = ground (arith, eq_iff "compile" "test")

substage_waves-IsOrder_example :
    Perm {A = String} (flatten (("compile" ∷ []) ∷ ("test" ∷ []) ∷ [])) ("test" ∷ "compile" ∷ [])
    × Earlier "compile" "test" [] (("compile" ∷ []) ∷ ("test" ∷ []) ∷ [])
substage_waves-IsOrder_example =
    substage_waves-IsOrder build (("compile" ∷ []) ∷ ("test" ∷ []) ∷ [])
      (substage "test" ("compile" ∷ [])) "compile" substage_waves-build (refl, (refl, tt))
      (inl refl) refl compile-test refl

abbrev declared : String → Port → Engine
declared alias port = record {
  alias = alias;
  port = port;
  engine = "forge://ci";
  manager = "files";
  spec = none;
}

abbrev working : String → List String → Substage
working name needs = record (substage name needs) { targets = "all" ∷ [] }

abbrev tested : Stage
tested = stage "build" "promote" (working "test" ("compile" ∷ []) ∷ working "compile" [] ∷ [])

abbrev valid : Pipeline
valid = record pipeline {
  managers = record { alias = "files"; engine = "forge://ci-manager-local"; spec = none } ∷ [];
  engines =
      declared "store" state
      ∷ declared "here" compute
      ∷ declared "approve" gate
      ∷ declared "promote" promotion
      ∷ [];
  targets = record { alias = "all"; binary = "forge"; args = []; in_repos = [] } ∷ [];
  stages = tested ∷ [];
}

config_program : Unit {0}
unfolding waves_program validate verdict problems front_problems versioning_problems add_if is_kebab
    is_uri is_cap is_strategy is_level semantic_empty ignore_path_problems repo_problems
    repo_need_problems repos_need_problems repo_needs order_problems uri_problems manager_problems
    is_port ignore_problems engine_problems uncalled_problems ports_by port_problems require_port
    trigger_problems in_problems target_problems is_artifact publishes unknown_targets gate_problems
    need_problems work_problems substage_problems stage_before use_problems uses_problems
    substages_uses_problems stage_problems stages_problems syncs any_syncs trim_space port_text
    has_substage singletons
config_program = tt

validate-valid : validate valid ≡ ok tt
unfolding config_program
validate-valid = refl

validate-Runs_example : Runs valid (index_of valid ".") tested
validate-Runs_example = validate-Runs valid "." tested validate-valid (inl refl)
