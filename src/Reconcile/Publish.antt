-- ===== src/Reconcile/Publish.antt =====
-- internal/controller/reconcilecontroller/publish.go, with `sameBytes` of release.go: a substage whose
-- engine publishes. The index of a release is its tools, each the assets and digests of its platforms.
use forge_ci.Common.{
  String, ℕ, ◌-◌, Bool, true, false, not, ◌||◌, List, [], ◌∷◌, Option, none, some, Result, ok, err,
  ◌==◌, nat_eq, map, select, member, set_of, length, lookup_or, has_key, if◌then◌else◌, ◌++ₛ◌,
}
use forge_ci.Common.Paths.{is_rooted, join}
use forge_ci.Common.Text.{quote}
use forge_ci.Types.{ForgeTypes, text, text_at, passed, Run, Revision, ArtifactInput, ArtifactOutput}
use forge_ci.Config.{Engine, Substage, Stage, Pipeline, ignore_repos}
use forge_ci.Version.{tag_name}
use forge_ci.Publication.{Upload, Plan, PlanError, cut_prefix, plan}
use forge_ci.Reconcile.Index.{EngineIndex, or_empty}
use forge_ci.Reconcile.Records.{ReleaseRecord, ReleaseDecision}
use forge_ci.Reconcile.World.{
  Error, Env, M, ◌>>=◌, ◌>>◌, pure, lift, ask, wrap, clock, publish, digest, not_planned,
  unreadable,
}
use forge_ci.Reconcile.State.{kind_run, put_json, run_key}
use forge_ci.Reconcile.Promote.{evaluate_gates}
use forge_ci.Reconcile.Release.{kind_release, read_release, write_release}

abbrev pub or_whole : String → Option String → String
or_whole s none = s
or_whole s (some rest) = rest

unfoldable pub add_shipped :
    List (String × String) → List (String × String) → List (String × String)
add_shipped [] shipped = shipped
add_shipped ((asset, sum) ∷ platforms) shipped =
    add_shipped platforms ((asset, or_whole sum (cut_prefix "sha256:" sum)) ∷ shipped)

-- What a release shipped: each asset's digest, the last that is written for an asset in front.
unfoldable pub shipped_of :
    List (List (String × String)) → List (String × String) → List (String × String)
unfolding add_shipped
shipped_of [] shipped = shipped
shipped_of (platforms ∷ tools) shipped = shipped_of tools (add_shipped platforms shipped)

abbrev pub planned : Result PlanError Plan → Result Error Plan
planned (ok made) = ok made
planned (err e) = err (not_planned e)

abbrev pub is_out : ArtifactOutput → Bool
is_out out = out.published || not (out.url == "")

module _ {f : ForgeTypes} (env : Env f) (index : EngineIndex) (root : String) where
  -- `publish`'s `in`, from the engine's spec with a root.
  unfoldable pub artifact_input :
      Pipeline → Engine → Revision → ReleaseDecision → List f.Artifact → ArtifactInput f
  artifact_input p engine revision decision carried =
      let given = or_empty engine.spec in
      let ignored = ignore_repos given in
      record {
        revision = revision.id;
        version = decision.version;
        tag_prefix = p.versioning.tag_prefix;
        repos = select (λ entry. not (member entry.0 ignored)) revision.repos;
        artifacts = carried;
        spec = if has_key "root" given then given else ("root", text root) ∷ given;
      }

  unfoldable pub same_digests : List (String × String) → List Upload → M f Bool
  same_digests shipped [] = pure true
  same_digests shipped (u ∷ us) = do
    let path = if is_rooted u.path then u.path else join (root ∷ u.path ∷ [])
    sum ← ask (digest path) (λ h. env.on_digest h path)
    if lookup_or "" u.asset shipped == sum then same_digests shipped us else pure false

  unfoldable pub same_shipped : List Upload → List (String × String) → M f Bool
  unfolding same_digests
  same_shipped uploads shipped =
      if nat_eq (length (set_of (map (λ entry. entry.0) shipped))) (length uploads)
      then same_digests shipped uploads
      else pure false

  -- `sameBytes`.
  unfoldable pub same_bytes : List Upload → Option ReleaseRecord → M f Bool
  unfolding same_shipped shipped_of
  same_bytes uploads none = pure false
  same_bytes [] (some prev) = pure false
  same_bytes (u ∷ us) (some prev) = if prev.index == "" then pure false else (do
    tools ← lift (elim (env.decode_index prev.index) [
      | none ↦ err (unreadable kind_release prev.tag)
      | some tools ↦ ok tools
    ])
    same_shipped (u ∷ us) (shipped_of tools []))

  -- The last release, where its bytes are what this run would upload.
  unfoldable pub shipped_before :
      Pipeline → ReleaseDecision → ArtifactInput f → M f (Option ReleaseRecord)
  unfolding same_bytes
  shipped_before p decision input = if decision.previous == "" then pure none else (do
    prev ← read_release env index ("by-tag/" ++ₛ tag_name p.versioning.tag_prefix decision.previous)
    made ← lift (
        planned (
          plan input.revision input.version input.tag_prefix input.repos
            (map env.built_file input.artifacts)))
    same ← same_bytes made.uploads prev
    pure (if same then prev else none))

  -- The revision carries the number of the release that it is.
  unfoldable pub publish_over :
      Pipeline
      → Engine
      → Revision
      → ReleaseDecision
      → ArtifactInput f
      → Option ReleaseRecord
      → M f ArtifactOutput
  publish_over p engine revision decision input (some prev) = do
    now ← clock env
    put_json env index kind_release revision.id
        (env.encode_release (record prev { revision = revision.id; released_at = now }))
    pure (record {
      published = false;
      url = prev.url;
      reason =
          "every asset is byte for byte what "
          ++ₛ tag_name p.versioning.tag_prefix decision.previous
          ++ₛ " shipped; nothing to release";
      tagged = [];
      index = "";
    })
  publish_over p engine revision decision input none = do
    out ← ask (publish engine.engine input) (λ h. env.on_publish h engine.engine input)
    now ← clock env
    (if is_out out
        then write_release env index (record {
          revision = revision.id;
          version = decision.version;
          tag = tag_name p.versioning.tag_prefix decision.version;
          repo = text_at "repo" input.spec;
          repos = decision.repos;
          trees = decision.trees;
          index = out.index;
          url = out.url;
          released_at = now;
        })
        else pure tt)
    pure out

  -- `publish`.
  unfoldable pub publish_revision :
      Pipeline → Engine → Revision → ReleaseDecision → List f.Artifact → M f ArtifactOutput
  unfolding artifact_input shipped_before publish_over
  publish_revision p engine revision decision carried =
      let input = artifact_input p engine revision decision carried in
      shipped_before p decision input >>= publish_over p engine revision decision input

  -- The run that a publication is recorded as.
  abbrev pub published_run :
      Stage → Substage → Revision → ReleaseDecision → (started now : ℕ) → ArtifactOutput → Run f
  published_run stage sub revision decision started now out = record {
    revision = revision.id;
    stage = stage.name;
    substage = sub.name;
    engine = sub.engine;
    status = passed;
    started_at = started;
    duration = now - started;
    message = if out.reason == "" then "published " ++ₛ decision.version else out.reason;
    output = "";
    forge = none;
    gates = [];
  }

  -- `publishSubstage`.
  unfoldable pub publish_substage :
      Pipeline
      → Stage
      → Substage
      → Engine
      → Revision
      → ReleaseDecision
      → List f.Artifact
      → M f (Run f × Bool × ArtifactOutput)
  unfolding publish_revision
  publish_substage p stage sub engine revision decision carried = do
    let place = "stage " ++ₛ quote stage.name ++ₛ " substage " ++ₛ quote sub.name
    started ← clock env
    out ← wrap place (publish_revision p engine revision decision carried)
    now ← clock env
    let run = published_run stage sub revision decision started now out
    gates ← wrap place (evaluate_gates env index sub run)
    put_json env index kind_run (run_key revision.id stage.name sub.name)
        (env.encode_run (record run { gates = gates }))
    pure (record run { gates = gates }, false, out)

abbrev pub stages_until : String → List Stage → Option (List Stage)
stages_until name [] = none
stages_until name (stage ∷ stages) =
    let rest = stages_until name stages in
    if stage.name == name
    then some []
    else elim rest [ none ↦ none | some before ↦ some (stage ∷ before) ]

-- `stagesBefore`.
unfoldable pub stages_before : String → List Stage → List Stage
stages_before name stages = elim (stages_until name stages) [ none ↦ [] | some before ↦ before ]
