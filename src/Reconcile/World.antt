-- ===== src/Reconcile/World.antt =====
-- internal/controller/reconcilecontroller: what the core says to the world around it, and hears.
-- Engines (engineadapter.Caller) answer each call; an answer may depend on all calls before it, so
-- `Env` is any deterministic world. `encoding/json` is part of it. The state of an action is the
-- history of its calls, newest first.
pub mod Only
pub mod After
use forge_ci.Common.{String, ℕ, Bool, List, [], ◌∷◌, Option, Result, ok, err}
use forge_ci.Types.{
  ForgeTypes, Spec, Resource, Ownership, ReconcileInput, ReconcileOutput, Run, GateInput,
  GateResult, PromotionInput, PromotionOutput, ArtifactGetInput, TriggerOutput, RunInput, RunOutput,
  ArtifactInput, ArtifactOutput,
}
use forge_ci.Version.{VersionError}
use forge_ci.Publication.{BuiltFile, PlanError}
use forge_ci.Reconcile.Records.{ReleaseRecord, ReleaseDecision, WireRevision}

-- `DeclaredSubstage`, `DeclaredStage`, `DeclareInput`; a declared repo is its name.
pub record DeclaredSubstage : Type 0 where
  pub name : String
  pub display_name : String
  pub needs : List String
  pub uses : List String

pub record DeclaredStage : Type 0 where
  pub name : String
  pub display_name : String
  pub substages : List DeclaredSubstage

pub record DeclareInput : Type 0 where
  pub spec : Spec
  pub root : String
  pub stages : List DeclaredStage
  pub repos : List String

-- A call of a tool of the engine at a URI, of git in a directory, or of the file system.
pub data Call (f : ForgeTypes) : Type 0 where
  state_get : (uri kind key : String) → Spec → Call f
  state_put : (uri kind key payload : String) → Spec → Call f
  declare : (uri : String) → DeclareInput → Call f
  reconcile : (uri : String) → ReconcileInput → Call f
  evaluate_gate : (uri : String) → GateInput f → Call f
  evaluate_promotion : (uri : String) → PromotionInput f → Call f
  latest_tag : (dir prefix : String) → Call f
  subjects_since : (dir tag : String) → Call f
  tree_hash : (dir : String) (ignore : List String) → Call f
  head_sha : (dir : String) → Call f
  worktree_hash : (dir : String) (exclude : List String) → Call f
  read_file : (path : String) → Call f
  poll : (uri : String) → Spec → Call f
  artifact_get : (uri : String) → ArtifactGetInput f → Call f
  artifact_put : (uri : String) → ArtifactGetInput f → Call f
  run_targets : (uri : String) → RunInput → Call f
  publish : (uri : String) → ArtifactInput f → Call f
  file_exists : (path : String) → Call f
  digest : (path : String) → Call f

abbrev pub History : ForgeTypes → Type 0
History f = List (Call f)

-- The answers to the calls, where an error is its message, and the JSON texts of what is stored. A
-- record that is not found is `none`.
pub record Env (f : ForgeTypes) : Type 0 where
  pub on_state_get : History f → (uri kind key : String) → Spec → Result String (Option String)
  pub on_state_put : History f → (uri kind key payload : String) → Spec → Result String (Unit {0})
  pub on_declare : History f → (uri : String) → DeclareInput → Result String (List Resource)
  pub on_reconcile : History f → (uri : String) → ReconcileInput → Result String ReconcileOutput
  pub on_gate : History f → (uri : String) → GateInput f → Result String GateResult
  pub on_promotion : History f → (uri : String) → PromotionInput f → Result String PromotionOutput
  pub on_latest_tag : History f → (dir prefix : String) → Result String String
  pub on_subjects_since : History f → (dir tag : String) → Result String (List String)
  pub on_tree_hash : History f → (dir : String) (ignore : List String) → Result String String
  pub on_head_sha : History f → (dir : String) → Result String String
  pub on_worktree_hash : History f → (dir : String) (exclude : List String) → Result String String
  pub on_read_file : History f → (path : String) → Result String String
  pub on_poll : History f → (uri : String) → Spec → Result String TriggerOutput
  pub on_artifact_get :
      History f → (uri : String) → ArtifactGetInput f → Result String (List f.Artifact)
  pub on_artifact_put :
      History f → (uri : String) → ArtifactGetInput f → Result String (List f.Artifact)
  pub on_run_targets : History f → (uri : String) → RunInput → Result String (RunOutput f)
  pub on_publish : History f → (uri : String) → ArtifactInput f → Result String ArtifactOutput
  pub on_file_exists : History f → (path : String) → Result String Bool
  pub on_digest : History f → (path : String) → Result String String
  pub built_file : f.Artifact → BuiltFile
  pub decode_index : String → Option (List (List (String × String)))
  pub decode_locks : String → Option (List (String × String))
  pub encode_lock : (revision path sha256 lockfile : String) → String
  pub encode_run : Run f → String
  pub now : History f → ℕ
  pub sha256_hex : String → String
  pub decode_manifest : String → Option (List String)
  pub encode_revision : WireRevision → String
  pub decode_revision : String → Option WireRevision
  pub encode_owned : List Ownership → String
  pub decode_owned : String → Option (List Ownership)
  pub decode_run : String → Option (Run f)
  pub encode_release : ReleaseRecord → String
  pub decode_release : String → Option ReleaseRecord
  pub encode_decision : ReleaseDecision → String
  pub decode_decision : String → Option ReleaseDecision

-- The errors that the core itself tells apart, the world's, and the words that wrap them.
pub data Error : Type 0 where
  engine_undeclared : (alias : String) → Error
  manager_undeclared : (alias : String) → Error
  wrong_port : (alias : String) → Error
  unreadable : (kind key : String) → Error
  stage_incomplete : (substage stage : String) → Error
  needs_cycle : List String → Error
  no_waves : Error
  unclaimed_subject : (repo subject : String) → (kinds : List String) → Error
  not_bumped : VersionError → Error
  no_evaluation : (revision : String) → Error
  other_revision : (asked recorded : String) → Error
  not_planned : PlanError → Error
  changed_lock : (path written found : String) → Error
  no_stage : (name : String) → Error
  out_of_order : (before stage : String) → Error → Error
  not_advanced : (before stage reason : String) → Error
  answered : (message : String) → Error
  within : (words : String) → Error → Error

abbrev pub M : ForgeTypes → Type 0 → Type 0
M f A = History f → Result Error A × History f

abbrev pub pure : {f : ForgeTypes} {A : Type 0} → A → M f A
pure a h = (ok a, h)

abbrev pub throw : {f : ForgeTypes} {A : Type 0} → Error → M f A
throw e h = (err e, h)

abbrev pub and_then : {f : ForgeTypes} {A B : Type 0} → Result Error A → (A → M f B) → M f B
and_then (ok a) k h = k a h
and_then (err e) k h = (err e, h)

infixl 5 ◌>>=◌ ◌>>◌
unfoldable pub ◌>>=◌ : {f : ForgeTypes} {A B : Type 0} → M f A → (A → M f B) → M f B
◌>>=◌ m k h = let (r, h') = m h in and_then r k h'

abbrev pub ◌>>◌ : {f : ForgeTypes} {A B : Type 0} → M f A → M f B → M f B
m >> n = m >>= λ _. n

abbrev pub outcome : {A : Type 0} → Result String A → Result Error A
outcome (ok a) = ok a
outcome (err message) = err (answered message)

-- One call, and its answer in this history.
unfoldable pub ask : {f : ForgeTypes} {A : Type 0} → Call f → (History f → Result String A) → M f A
ask call answer h = (outcome (answer h), call ∷ h)

abbrev pub wrapped : {A : Type 0} → String → Result Error A → Result Error A
wrapped words (ok a) = ok a
wrapped words (err e) = err (within words e)

-- `fmt.Errorf("words: %w", err)` around an action.
unfoldable pub wrap : {f : ForgeTypes} {A : Type 0} → String → M f A → M f A
wrap words m h = let (r, h') = m h in (wrapped words r, h')

-- A pure part that may fail.
unfoldable pub lift : {f : ForgeTypes} {A : Type 0} → Result Error A → M f A
lift r h = (r, h)

-- An action whose error is kept for later.
unfoldable pub attempt : {f : ForgeTypes} {A : Type 0} → M f A → M f (Result Error A)
attempt m h = let (r, h') = m h in (ok r, h')

-- `c.now()`.
unfoldable pub clock : {f : ForgeTypes} → Env f → M f ℕ
clock env h = (ok (env.now h), h)
