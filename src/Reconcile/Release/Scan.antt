-- ===== src/Reconcile/Release/Scan.antt =====
-- internal/controller/reconcilecontroller/reconcilecontroller.go: the level that the commits of the
-- release set ask for.
use forge_ci.Common.{
  String, ℕ, suc, Bool, true, false, ◌&&◌, List, [], ◌∷◌, ◌++◌, ◌==◌, ltb, nat_eq, if◌then◌else◌,
  ◌++ₛ◌,
}
use forge_ci.Common.Paths.{join}
use forge_ci.Common.Text.{quote}
use forge_ci.Types.{ForgeTypes}
use forge_ci.Config.{Pipeline, commit_prefix}
use forge_ci.Version.{Level, level_none, level_patch, level_minor, tag_name}
use forge_ci.Version.Classify.{Semantic, classify, unclaimed}
use forge_ci.Reconcile.World.{
  Env, M, ◌>>=◌, ◌>>◌, pure, throw, ask, wrap, subjects_since, unclaimed_subject,
}

-- `commitScan`.
pub record CommitScan : Type 0 where
  pub level : Level
  pub count : ℕ
  pub deciding : String
  pub ignored : String
  pub semantic : Bool

abbrev pub scan_at : Level → CommitScan
scan_at level = record { level = level; count = 0; deciding = ""; ignored = ""; semantic = false }

-- `knownKinds`.
unfoldable pub known_kinds : Semantic → String → List String
known_kinds vocab prefix =
    vocab.major
    ++ (vocab.minor
        ++ (vocab.patch ++ (vocab.ignore ++ (if prefix == "" then [] else prefix ∷ []))))

-- What one subject adds to the scan.
unfoldable pub scan_subject : Semantic → String → String → String → CommitScan → CommitScan
scan_subject scoring prefix name subject scan =
    let level = classify scoring prefix subject in
    let place = quote subject ++ₛ " in " ++ₛ name in
    record {
      level = if ltb scan.level level then level else scan.level;
      count = suc scan.count;
      deciding = if ltb scan.level level then place else scan.deciding;
      ignored = if nat_eq level level_none && scan.ignored == "" then place else scan.ignored;
      semantic = scan.semantic;
    }

unfoldable pub scan_subjects : Semantic → String → String → List String → CommitScan → CommitScan
unfolding scan_subject
scan_subjects scoring prefix name [] scan = scan
scan_subjects scoring prefix name (subject ∷ subjects) scan =
    scan_subjects scoring prefix name subjects (scan_subject scoring prefix name subject scan)

abbrev pub newest : List String → List String
newest [] = []
newest (subject ∷ subjects) = subject ∷ []

module _ {f : ForgeTypes} where
  -- The newest commit of a repo is held to the vocabulary.
  unfoldable pub hold_to : Semantic → String → String → List String → M f (Unit {0})
  hold_to vocab prefix name [] = pure tt
  hold_to vocab prefix name (subject ∷ unclaimed) =
      throw (unclaimed_subject name subject (known_kinds vocab prefix))

  module _ (env : Env f) (root tag prefix : String) (vocab scoring : Semantic) where
    unfoldable pub scan_repos : List String → CommitScan → M f CommitScan
    unfolding scan_subjects hold_to
    scan_repos [] scan = pure scan
    scan_repos (name ∷ names) scan = do
      let dir = join (root ∷ name ∷ [])
      got ←
          wrap ("reading what changed in " ++ₛ quote name)
            (ask (subjects_since dir tag) (λ h. env.on_subjects_since h dir tag))
      (if vocab.unmatched == "error"
          then hold_to vocab prefix name (unclaimed vocab prefix (newest got))
          else pure tt)
      scan_repos names (scan_subjects scoring prefix name got scan)

  -- `bumpLevel`.
  unfoldable pub bump_level : Env f → Pipeline → String → String → List String → M f CommitScan
  unfolding scan_repos commit_prefix tag_name
  bump_level env p root previous set =
      let vocab = p.versioning.semantic in
      let scoring =
        if vocab.unmatched == "error" then record vocab { unmatched = "patch" } else vocab in
      let scanned =
        scan_repos env root (tag_name p.versioning.tag_prefix previous) (commit_prefix p.versioning)
          vocab scoring set (record (scan_at level_none) { semantic = true }) in
      if p.versioning.strategy == "bump-minor-version"
      then pure (scan_at level_minor)
      else if p.versioning.strategy == "semantic"
      then scanned
      else pure (scan_at level_patch)
