-- ===== src/Reconcile/Release/Decide.antt =====
-- internal/controller/reconcilecontroller/release.go: `decideRelease`.
use forge_ci.Common.{
  String, Bool, true, false, not, ◌&&◌, List, [], ◌∷◌, Option, none, some, Result, ok, err, ◌==◌,
  nat_eq, map, length, ltb, if◌then◌else◌, ◌++ₛ◌,
}
use forge_ci.Common.Digits.{print_nat}
use forge_ci.Common.Paths.{join}
use forge_ci.Common.Sort.{sort_by, le_text}
use forge_ci.Common.Text.{quote}
use forge_ci.Types.{ForgeTypes, Revision}
use forge_ci.Config.{Pipeline}
use forge_ci.Version.{level_none, level_text, tag_name, bump, VersionError}
use forge_ci.Reconcile.Index.{EngineIndex}
use forge_ci.Reconcile.Records.{ReleaseRecord, ReleaseDecision}
use forge_ci.Reconcile.World.{
  Error, Env, M, ◌>>=◌, pure, lift, ask, wrap, latest_tag, tree_hash, not_bumped,
}
use forge_ci.Reconcile.Release.{read_release, release_home, release_set, same_map}
use forge_ci.Reconcile.Release.Scan.{CommitScan, bump_level}

-- The zero `Revision`, and the decision of a pipeline that releases nothing.
abbrev pub no_revision : Revision
no_revision = record { id = ""; created_at = 0; repos = []; dirty = [] }

abbrev pub no_decision : ReleaseDecision
no_decision = record {
  revision = no_revision;
  version = "";
  tag = "";
  previous = "";
  skip = false;
  reason = "";
  url = "";
  repos = [];
  trees = [];
}

-- `nothingReleasable`.
unfoldable pub nothing_releasable : String → CommitScan → String
nothing_releasable previous_tag scan =
    if nat_eq scan.count 0
    then "Nothing to release. No repo in the release set has a new commit since " ++ₛ previous_tag
      ++ₛ "."
    else if nat_eq scan.count 1
    then "Nothing to release. 1 commit since " ++ₛ previous_tag
      ++ₛ ", and it is a kind that never releases: " ++ₛ scan.ignored ++ₛ "."
    else "Nothing to release. "
      ++ₛ print_nat scan.count
      ++ₛ " commits since "
      ++ₛ previous_tag
      ++ₛ ", and each one is a kind that never releases. Example: "
      ++ₛ scan.ignored
      ++ₛ "."

-- `releasing`.
unfoldable pub releasing : String → String → CommitScan → String
releasing next previous scan =
    if previous == ""
    then "Release " ++ₛ next ++ₛ ": the first release."
    else if scan.semantic && not (scan.deciding == "")
    then "Release " ++ₛ next ++ₛ " (" ++ₛ level_text scan.level ++ₛ "): " ++ₛ scan.deciding ++ₛ "."
    else "Release " ++ₛ next ++ₛ " (" ++ₛ level_text scan.level ++ₛ ")."

-- The decision for a revision that was released.
unfoldable pub released_as : ReleaseRecord → ReleaseDecision
released_as rec = record no_decision {
  version = rec.version;
  tag = rec.tag;
  url = rec.url;
  reason =
      "Release " ++ₛ rec.version
      ++ₛ ". This revision was released under it already, so every publish converges.";
  repos = rec.repos;
  trees = rec.trees;
}

abbrev pub is_empty : List (String × String) → Bool
is_empty [] = true
is_empty (entry ∷ entries) = false

abbrev pub Entries : Type 0
Entries = List (String × String)

unfoldable pub skipped : ReleaseRecord → String → String → Entries → Entries → ReleaseDecision
skipped prev previous reason set trees = record no_decision {
  version = prev.version;
  tag = prev.tag;
  previous = previous;
  skip = true;
  url = prev.url;
  reason = reason;
  repos = set;
  trees = trees;
}

-- What the record of the last release says: the same code, or none of it.
unfoldable pub same_as_last :
    Pipeline → String → Entries → Entries → Option ReleaseRecord → Option ReleaseDecision
unfolding skipped
same_as_last p previous set trees none = none
same_as_last p previous set trees (some prev) =
    let tag = tag_name p.versioning.tag_prefix previous in
    let reason = "Nothing to release. The release set holds the same code as " ++ₛ tag ++ₛ "." in
    if not (is_empty prev.repos) && same_map prev.repos set
    then some (skipped prev previous reason set trees)
    else if not (is_empty prev.trees)
        && (ltb 0 (length p.versioning.ignore_paths) && same_map prev.trees trees)
    then some (skipped prev previous (reason ++ₛ " Only ignored paths changed.") set trees)
    else none

abbrev pub bumped : Result VersionError String → Result Error String
bumped (ok next) = ok next
bumped (err e) = err (not_bumped e)

module _ {f : ForgeTypes} (env : Env f) (p : Pipeline) (index : EngineIndex) (root : String)
    (revision : Revision) where
  -- `treeHashes`.
  unfoldable pub tree_hashes : List String → List String → M f Entries
  tree_hashes [] ignore = pure []
  tree_hashes (name ∷ names) ignore = do
    let dir = join (root ∷ name ∷ [])
    hash ←
        wrap ("hashing the tree of " ++ₛ quote name)
          (ask (tree_hash dir ignore) (λ h. env.on_tree_hash h dir ignore))
    rest ← tree_hashes names ignore
    pure ((name, hash) ∷ rest)

  -- A new number, unless the release set is what it was.
  unfoldable pub next_unless :
      String → CommitScan → Entries → Entries → Option ReleaseDecision → M f ReleaseDecision
  next_unless previous scan set trees (some same) = pure same
  next_unless previous scan set trees none = do
    next ← lift (bumped (bump previous scan.level p.versioning.cap_to))
    pure (record no_decision {
      version = next;
      tag = tag_name p.versioning.tag_prefix next;
      previous = previous;
      repos = set;
      trees = trees;
      reason = releasing next previous scan;
    })

  unfoldable pub last_release : String → M f (Option ReleaseRecord)
  last_release previous =
      if previous == ""
      then pure none
      else read_release env index ("by-tag/" ++ₛ tag_name p.versioning.tag_prefix previous)

  unfoldable pub decide_scanned : String → CommitScan → Entries → List String → M f ReleaseDecision
  unfolding tree_hashes last_release same_as_last next_unless
  decide_scanned previous scan set names =
      if not (previous == "") && nat_eq scan.level level_none
      then pure (record no_decision {
        skip = true;
        previous = previous;
        reason = nothing_releasable (tag_name p.versioning.tag_prefix previous) scan;
      })
      else do
        trees ← tree_hashes names p.versioning.ignore_paths
        prev ← last_release previous
        next_unless previous scan set trees (same_as_last p previous set trees prev)

  unfoldable pub decide_new : String → Option ReleaseRecord → M f ReleaseDecision
  unfolding decide_scanned released_as
  decide_new home (some rec) = pure (released_as rec)
  decide_new home none = do
    let set = release_set p index revision
    let names = sort_by le_text (map (λ entry. entry.0) set)
    previous ← wrap "reading the last released version" (
        ask (latest_tag home p.versioning.tag_prefix)
          (λ h. env.on_latest_tag h home p.versioning.tag_prefix))
    scan ← bump_level env p root previous names
    decide_scanned previous scan set names

  unfoldable pub decide_from : Option String → M f ReleaseDecision
  unfolding decide_new
  decide_from none = pure no_decision
  decide_from (some home) = read_release env index revision.id >>= decide_new home

  -- `decideRelease`.
  unfoldable pub decide_release : M f ReleaseDecision
  unfolding decide_from
  decide_release = decide_from (release_home p index root)
