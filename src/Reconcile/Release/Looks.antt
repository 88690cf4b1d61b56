-- ===== src/Reconcile/Release/Looks.antt =====
-- internal/controller/reconcilecontroller/release.go: which calls `decideRelease` makes.
use forge_ci.Common.{String, List, [], ◌∷◌, Option, none, some, ◌==◌, nat_eq, not, ◌&&◌}
use forge_ci.Types.{ForgeTypes, Revision}
use forge_ci.Config.{Pipeline}
use forge_ci.Version.{level_none}
use forge_ci.Version.Classify.{Semantic, unclaimed}
use forge_ci.Reconcile.World.{Call, state_get, latest_tag, subjects_since, tree_hash, Env}
use forge_ci.Reconcile.World.Only.{
  Only, Only-pure, Only-throw, Only-lift, Only-ask, Only-wrap, Only-if, Only-bind,
}
use forge_ci.Reconcile.Index.{EngineIndex}
use forge_ci.Reconcile.State.{get_json, decoded}
use forge_ci.Reconcile.Records.{ReleaseRecord, ReleaseDecision}
use forge_ci.Reconcile.Release.{read_release, release_home}
use forge_ci.Reconcile.Release.Scan.{CommitScan, hold_to, newest, scan_repos, bump_level}
use forge_ci.Reconcile.Release.Decide.{
  Entries, no_decision, tree_hashes, next_unless, last_release, decide_scanned, decide_new,
  decide_from, decide_release,
}

-- A read of the state, of the tags, of the subjects or of a tree.
abbrev pub Looks : {f : ForgeTypes} → Call f → Type 0
Looks (state_get uri kind key spec) = Unit
Looks (latest_tag dir prefix) = Unit
Looks (subjects_since dir tag) = Unit
Looks (tree_hash dir ignore) = Unit
Looks other = ⊥

hold_to-Only :
    {f : ForgeTypes} (vocab : Semantic) (prefix name : String) (found : List String)
    → Only {f = f} Looks (hold_to vocab prefix name found)
unfolding hold_to
hold_to-Only vocab prefix name [] = Only-pure tt
hold_to-Only vocab prefix name (subject ∷ found) = Only-throw _

module _ {f : ForgeTypes} (env : Env f) (p : Pipeline) (index : EngineIndex) (root : String)
    (revision : Revision) where
  read_release-Only : (key : String) → Only Looks (read_release env index key)
  unfolding read_release get_json decoded
  read_release-Only key = Only-bind _ _ (Only-wrap _ _ (Only-ask _ _ tt)) (λ payload. Only-lift _)

  scan_repos-Only :
      (tag prefix : String) (vocab scoring : Semantic) (names : List String) (scan : CommitScan)
      → Only Looks (scan_repos env root tag prefix vocab scoring names scan)
  unfolding scan_repos
  scan_repos-Only tag prefix vocab scoring [] scan = Only-pure scan
  scan_repos-Only tag prefix vocab scoring (name ∷ names) scan =
      Only-bind _ _ (Only-wrap _ _ (Only-ask _ _ tt)) (λ got.
        Only-bind _ _
          (Only-if (vocab.unmatched == "error") _ _
            (λ on. hold_to-Only vocab prefix name (unclaimed vocab prefix (newest got)))
            (λ off. Only-pure tt))
          (λ u. scan_repos-Only tag prefix vocab scoring names _))

  bump_level-Only :
      (previous : String) (set : List String) → Only Looks (bump_level env p root previous set)
  unfolding bump_level
  bump_level-Only previous set =
      Only-if (p.versioning.strategy == "bump-minor-version") _ _ (λ on. Only-pure _)
        (λ off.
          Only-if (p.versioning.strategy == "semantic") _ _ (λ on. scan_repos-Only _ _ _ _ set _)
            (λ off. Only-pure _))

  tree_hashes-Only :
      (names ignore : List String) → Only Looks (tree_hashes env p index root revision names ignore)
  unfolding tree_hashes
  tree_hashes-Only [] ignore = Only-pure []
  tree_hashes-Only (name ∷ names) ignore =
      Only-bind _ _ (Only-wrap _ _ (Only-ask _ _ tt))
        (λ hash. Only-bind _ _ (tree_hashes-Only names ignore) (λ rest. Only-pure _))

  next_unless-Only :
      (previous : String) (scan : CommitScan) (set trees : Entries) (same : Option ReleaseDecision)
      → Only Looks (next_unless env p index root revision previous scan set trees same)
  unfolding next_unless
  next_unless-Only previous scan set trees (some same) = Only-pure same
  next_unless-Only previous scan set trees none = Only-bind _ _ (Only-lift _) (λ next. Only-pure _)

  decide_scanned-Only :
      (previous : String) (scan : CommitScan) (set : Entries) (names : List String)
      → Only Looks (decide_scanned env p index root revision previous scan set names)
  unfolding decide_scanned last_release
  decide_scanned-Only previous scan set names =
      Only-if (not (previous == "") && nat_eq scan.level level_none) _ _ (λ on. Only-pure _)
        (λ off. Only-bind _ _ (tree_hashes-Only names _) (λ trees.
          Only-bind _ _
            (Only-if (previous == "") _ _ (λ on. Only-pure _) (λ off. read_release-Only _))
            (λ prev. next_unless-Only previous scan set trees _)))

  decide_new-Only :
      (home : String) (recorded : Option ReleaseRecord)
      → Only Looks (decide_new env p index root revision home recorded)
  unfolding decide_new
  decide_new-Only home (some rec) = Only-pure _
  decide_new-Only home none = Only-bind _ _ (Only-wrap _ _ (Only-ask _ _ tt)) (λ previous.
      Only-bind _ _ (bump_level-Only previous _) (λ scan. decide_scanned-Only previous scan _ _))

  decide_from-Only :
      (home : Option String) → Only Looks (decide_from env p index root revision home)
  unfolding decide_from
  decide_from-Only none = Only-pure no_decision
  decide_from-Only (some home) = Only-bind _ _ (read_release-Only _) (decide_new-Only home)

  -- To decide on a release changes nothing: in every world `decideRelease` reads the state, the tags,
  -- the subjects and the trees, and makes no other call.
  pub decide_release-Only : Only Looks (decide_release env p index root revision)
  unfolding decide_release
  decide_release-Only = decide_from-Only (release_home p index root)
