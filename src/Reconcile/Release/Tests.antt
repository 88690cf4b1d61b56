-- ===== src/Reconcile/Release/Tests.antt =====
-- Runs of the release decision and of Apply, and the theorems at them.
use forge_ci.Common.{◌≡◌, refl, true, false, [], ◌∷◌, none, some, ok, inl}
use forge_ci.Common.Paths.{base, join}
use forge_ci.Types.{Revision, text, text_at}
use forge_ci.Config.{artifact, Pipeline, port_text}
use forge_ci.Reconcile.World.{Env, ◌>>=◌, ask, wrap, lift, state_get}
use forge_ci.Reconcile.World.After.{After}
use forge_ci.Reconcile.World.Only.{Only}
use forge_ci.Reconcile.Index.{
  EngineIndex, index_of, index_with, engine_of, require, engines_by, or_empty,
}
use forge_ci.Reconcile.Records.{ReleaseRecord}
use forge_ci.Reconcile.State.{get_json, decoded}
use forge_ci.Reconcile.Resources.Calls.{Allowed}
use forge_ci.Reconcile.Tests.{forge, pipeline, env, engine, stage, substage}
use forge_ci.Reconcile.Release.{
  kind_release, release_home, home_of, first_artifact_engine, artifact_engine_in, read_release,
  read_evaluation, find_evaluation, evaluated,
}
use forge_ci.Reconcile.Release.Decide.{
  no_decision, released_as, decide_release, decide_from, decide_new,
}
use forge_ci.Reconcile.Release.Looks.{Looks, decide_release-Only}
use forge_ci.Reconcile.Release.Numbered.{IsNumbered, decide_release-IsNumbered}
use forge_ci.Reconcile.Revise.{pinned_revision, pinned_to}
use forge_ci.Reconcile.Revise.Pinned.{IsPinned, pinned_revision-IsPinned}
use forge_ci.Reconcile.Apply.{ApplyOptions, apply_pipeline, apply_stages}
use forge_ci.Reconcile.Apply.Planned.{apply_pipeline-Only}
use forge_ci.Reconcile.Apply.Halts.{Halts, apply_stages-Halts}

-- A pipeline whose last stage publishes.
abbrev publishing : Pipeline
publishing = record pipeline {
  versioning = record pipeline.versioning { strategy = "bump-patch-version" };
  engines = record (engine "here" artifact) { spec = some (("repo", text "org/dist") ∷ []) } ∷ [];
  stages = stage "release" "" (substage "publish" [] ∷ []) ∷ [];
}

abbrev index : EngineIndex
index = index_of publishing "."

abbrev revision : Revision
revision = record { id = "abc"; created_at = 0; repos = ("app", "sha") ∷ []; dirty = [] }

abbrev shipped : ReleaseRecord
shipped = record {
  revision = "abc";
  version = "v0.3.0";
  tag = "v0.3.0";
  repo = "";
  repos = ("app", "sha") ∷ [];
  trees = [];
  index = "";
  url = "";
  released_at = 0;
}

-- A state engine that has a release record under each key, and one that has none.
abbrev released : Env forge
released = record env {
  on_state_get = λ h uri kind key spec. ok (some "v0.3.0");
  decode_release = λ written. some shipped;
}

abbrev fresh : Env forge
fresh = record env { on_state_get = λ h uri kind key spec. ok none }

program : Unit {0}
unfolding release_home home_of first_artifact_engine artifact_engine_in require engine_of index_of
    index_with engines_by or_empty port_text text_at base join
program = tt

home : release_home publishing index "." ≡ some "dist"
unfolding program
home = refl

decide_release-Only_example : Only Looks (decide_release fresh publishing index "." revision)
decide_release-Only_example = decide_release-Only fresh publishing index "." revision

decide_release-released : decide_release released publishing index "." revision [] ≡ (
  ok (released_as shipped),
  state_get index.state_uri kind_release revision.id index.state_spec ∷ [],
)
unfolding program decide_release decide_from decide_new read_release get_json decoded ◌>>=◌ ask wrap
    lift
decide_release-released = refl

decide_release-IsNumbered_example :
    After
      (decide_release fresh publishing index "." revision)
      []
      (λ d h. IsNumbered fresh publishing index "." revision [] d)
decide_release-IsNumbered_example = decide_release-IsNumbered fresh publishing index "." revision []

-- A state engine whose decisions are all for this revision.
abbrev decided : Env forge
decided = record released {
  decode_decision = λ written. some (record (released_as shipped) { revision = revision });
}

pinned_revision-IsPinned_example :
    After
      (pinned_revision decided index publishing "." "abc")
      []
      (λ answer h. IsPinned decided index publishing "." "abc" [] answer h)
pinned_revision-IsPinned_example = pinned_revision-IsPinned decided index publishing "." "abc" []

pinned_to_abc :
    (pinned_revision decided index publishing "." "abc" []).0
    ≡ ok (revision, record (released_as shipped) { revision = revision })
unfolding pinned_revision read_evaluation find_evaluation evaluated pinned_to get_json decoded ◌>>=◌
    ask wrap lift
pinned_to_abc = refl

abbrev dry : ApplyOptions
dry = record {
  base = record { dry_run = true; force = false };
  phase = "";
  stage = "";
  substage = "";
  revision = "";
}

apply_pipeline-Only_example :
    Only (Allowed false dry.base) (apply_pipeline fresh publishing "." dry)
apply_pipeline-Only_example = apply_pipeline-Only fresh publishing "." dry (inl (refl, refl))

apply_stages-Halts_example :
    After
      (apply_stages fresh publishing index "." revision no_decision publishing.stages)
      []
      (λ reports h.
        Halts fresh publishing index "." revision no_decision publishing.stages [] reports h)
apply_stages-Halts_example =
    apply_stages-Halts fresh publishing index "." revision no_decision publishing.stages []
