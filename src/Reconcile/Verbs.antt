-- ===== src/Reconcile/Verbs.antt =====
-- internal/controller/reconcilecontroller/verbs.go: the verbs beside Apply.
use forge_ci.Common.{
  String, Bool, true, false, List, [], ◌∷◌, Option, none, some, every, if◌then◌else◌, ◌++ₛ◌,
}
use forge_ci.Types.{ForgeTypes, Spec, Run, Revision, pending, ArtifactOutput, TriggerOutput}
use forge_ci.Types
use forge_ci.Config.{trigger, Substage, Stage, Pipeline}
use forge_ci.Reconcile.World.{Env, M, ◌>>=◌, ◌>>◌, pure, lift, ask, poll}
use forge_ci.Reconcile.Index.{EngineIndex, or_empty, require, new_index}
use forge_ci.Reconcile.State.{kind_owned, get_json, put_json, get_run, run_key}
use forge_ci.Reconcile.Resources.{Options, reconcile_resources}
use forge_ci.Reconcile.Promote.{StageReport, is_green}
use forge_ci.Reconcile.Revise.{resolve_revision, mint}

-- `Report`.
pub record Report (f : ForgeTypes) : Type 0 where
  pub revision : Option Revision
  pub version : String
  pub actions : List String
  pub stages : List (StageReport f)
  pub minted : Bool
  pub released : List ArtifactOutput
  pub planned : Bool
  pub superseded : Bool
  pub nothing_new : Bool
  pub skipped : Bool
  pub reason : String
  pub evaluation : String
  pub reconciliation : String

-- `Report{}`, whose revision is the zero one.
abbrev pub empty_report : {f : ForgeTypes} → Report f
empty_report = record {
  revision = none;
  version = "";
  actions = [];
  stages = [];
  minted = false;
  released = [];
  planned = false;
  superseded = false;
  nothing_new = false;
  skipped = false;
  reason = "";
  evaluation = "";
  reconciliation = "";
}

abbrev pub pending_run : {f : ForgeTypes} → Revision → Stage → Substage → Run f
pending_run revision stage sub = record {
  revision = revision.id;
  stage = stage.name;
  substage = sub.name;
  engine = sub.engine;
  status = pending;
  started_at = 0;
  duration = 0;
  message = "";
  output = "";
  forge = none;
  gates = [];
}

abbrev pub found_or : {A : Type 0} → A → Option A → A
found_or a none = a
found_or a (some b) = b

-- `Controller.Bootstrap`.
unfoldable pub bootstrap : {f : ForgeTypes} → Env f → Pipeline → String → Options → M f (Report f)
bootstrap env given root opts =
    let (index, p) = new_index given root in
    do
      (actions, changed, published) ← reconcile_resources env p index root true opts
      if opts.dry_run then pure (record empty_report { actions = actions; planned = true }) else (do
        revision ← resolve_revision env p root
        mint env index revision
        pure (record empty_report { revision = some revision; actions = actions }))

module _ {f : ForgeTypes} (env : Env f) (index : EngineIndex) where
  unfoldable pub status_runs : Revision → Stage → List Substage → M f (List (Run f))
  status_runs revision stage [] = pure []
  status_runs revision stage (sub ∷ subs) = do
    found ← get_run env index (run_key revision.id stage.name sub.name)
    runs ← status_runs revision stage subs
    pure (found_or (pending_run revision stage sub) found ∷ runs)

  unfoldable pub status_of : Stage → List (Run f) → StageReport f
  status_of stage runs =
      let advance = every is_green runs in
      record {
        name = stage.name;
        runs = runs;
        advance = advance;
        reason = if advance then "every substage passed" else "not finished";
        reused = 0;
        released = [];
      }

  unfoldable pub status_stages : Revision → List Stage → M f (List (StageReport f))
  unfolding status_runs status_of
  status_stages revision [] = pure []
  status_stages revision (stage ∷ stages) = do
    runs ← status_runs revision stage stage.substages
    rest ← status_stages revision stages
    pure (status_of stage runs ∷ rest)

  abbrev pub payload_or_blank : Option String → String
  payload_or_blank none = ""
  payload_or_blank (some payload) = payload

  -- `readFingerprint` and `writeFingerprint`.
  unfoldable pub read_fingerprint : String → M f String
  read_fingerprint alias = do
    found ← get_json env index kind_owned ("trigger-" ++ₛ alias)
    pure (payload_or_blank found)

  unfoldable pub write_fingerprint : String → String → M f (Unit {0})
  write_fingerprint alias fingerprint =
      put_json env index kind_owned ("trigger-" ++ₛ alias) fingerprint

  abbrev pub combine : String → TriggerOutput → TriggerOutput → TriggerOutput
  combine alias out combined =
      if out.changed
      then record {
        changed = true;
        reason = alias ++ₛ ": " ++ₛ out.reason;
        fingerprint = out.fingerprint;
      }
      else combined

  -- The loop of `Poll`.
  unfoldable pub poll_triggers : List String → TriggerOutput → M f TriggerOutput
  unfolding read_fingerprint write_fingerprint
  poll_triggers [] combined = pure combined
  poll_triggers (alias ∷ aliases) combined = do
    engine ← lift (require index alias trigger)
    previous ← read_fingerprint alias
    let spec : Spec = ("previous", Types.text previous) ∷ or_empty engine.spec
    out ← ask (poll engine.engine spec) (λ h. env.on_poll h engine.engine spec)
    write_fingerprint alias out.fingerprint
    poll_triggers aliases (combine alias out combined)

-- `Controller.Status`.
unfoldable pub status : {f : ForgeTypes} → Env f → Pipeline → String → M f (Report f)
unfolding status_stages
status env given root =
    let (index, p) = new_index given root in
    do
      revision ← resolve_revision env p root
      stages ← status_stages env index revision p.stages
      pure (record empty_report { revision = some revision; stages = stages })

-- `Controller.Poll`.
unfoldable pub poll_all : {f : ForgeTypes} → Env f → Pipeline → String → M f TriggerOutput
unfolding poll_triggers
poll_all env p root =
    poll_triggers env (new_index p root).0 p.triggers
      (record { changed = false; reason = ""; fingerprint = "" })
