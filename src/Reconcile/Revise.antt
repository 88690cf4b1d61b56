-- ===== src/Reconcile/Revise.antt =====
-- internal/controller/reconcilecontroller: the revision of a run (reconcilecontroller.go), its record
-- (revisionwire.go), and the revision that a phase is bound to (pinned.go).
pub mod Pinned
use forge_ci.Common.{
  String, ℕ, Bool, true, false, not, ◌&&◌, ◌||◌, List, [], ◌∷◌, ◌++◌, Option, none, some, Result,
  ok, err, ◌==◌, nat_eq, map, lookup_or, if◌then◌else◌, ◌++ₛ◌,
}
use forge_ci.Common.Paths.{clean, join, slash}
use forge_ci.Common.Sort.{sort_strings}
use forge_ci.Common.Text.{cut, join_with, first_bytes, quote}
use forge_ci.Types.{ForgeTypes, Revision, RepoCheckout}
use forge_ci.Config.{Repo, Pipeline}
use forge_ci.Reconcile.World.{
  Error, Env, M, ◌>>=◌, ◌>>◌, pure, throw, lift, ask, wrap, head_sha, worktree_hash, read_file,
  other_revision, unreadable,
}
use forge_ci.Reconcile.Index.{EngineIndex}
use forge_ci.Reconcile.Records.{ReleaseDecision, WireRevision}
use forge_ci.Reconcile.State.{get_json, put_json}
use forge_ci.Reconcile.Release.{read_evaluation, same_map}
use text.Mathlib.Text.{starts_with}

abbrev pub kind_revision : String
kind_revision = "revision"

abbrev pub generated_manifest_path : String
generated_manifest_path = ".forge/factory-generated.json"

abbrev pub dirty_suffix : String
dirty_suffix = "-dirty"

-- Whether a file of the manifest stands in a repo, and where.
unfoldable pub excluded_in : String → Option (String × String) → List String → List String
excluded_in repo none rest = rest
excluded_in repo (some (dir, file)) rest =
    if dir == repo && not (dir == "" || file == "" || starts_with dir ".")
    then file ∷ rest
    else rest

-- `generatedExclusions` of one repo.
unfoldable pub exclusions_of : String → List String → List String
unfolding excluded_in
exclusions_of repo [] = []
exclusions_of repo (file ∷ files) =
    excluded_in repo (cut slash (clean file)) (exclusions_of repo files)

-- What the loop over the repos gathers: the revision's parts, and each repo's worktree hash.
pub record Resolved : Type 0 where
  pub repos : List (String × String)
  pub dirty : List String
  pub worktrees : List (String × String)

unfoldable pub part_of : Resolved → String → String
part_of done name =
    name ++ₛ "=" ++ₛ lookup_or "" name done.repos ++ₛ "+" ++ₛ lookup_or "" name done.worktrees

unfoldable pub marked : List String → String → String
marked [] id = id
marked (repo ∷ dirty) id = id ++ₛ dirty_suffix

unfoldable pub revision_of : (String → String) → ℕ → Pipeline → Resolved → Revision
unfolding part_of marked
revision_of sha256_hex created_at p done =
    let names = sort_strings (map (λ (repo : Repo). repo.name) p.repos) in
    let parts = p.name ∷ map (part_of done) names in
    record {
      id = marked done.dirty (first_bytes 12 (sha256_hex (join_with "\n" parts)));
      created_at = created_at;
      repos = done.repos;
      dirty = sort_strings done.dirty;
    }

-- `checkouts`.
unfoldable pub checkouts : Pipeline → String → Revision → List RepoCheckout
checkouts p root revision =
    map
      (λ (repo : Repo). record {
        name = repo.name;
        path = join (root ∷ repo.name ∷ []);
        sha = lookup_or "" repo.name revision.repos;
        needs = repo.needs;
      })
      p.repos

abbrev pub filled : {A : Type 0} → List A → Option (List A)
filled [] = none
filled (a ∷ rest) = some (a ∷ rest)

-- `toWire`.
unfoldable pub to_wire : Revision → WireRevision
to_wire revision = record {
  id = revision.id;
  created_at = revision.created_at;
  repos = filled revision.repos;
  dirty = filled revision.dirty;
}

unfoldable pub same_list : List String → List String → Bool
same_list [] [] = true
same_list [] (y ∷ ys) = false
same_list (x ∷ xs) [] = false
same_list (x ∷ xs) (y ∷ ys) = x == y && same_list xs ys

abbrev pub same_option : {A : Type 0} → (A → A → Bool) → Option A → Option A → Bool
same_option same none none = true
same_option same none (some y) = false
same_option same (some x) none = false
same_option same (some x) (some y) = same x y

-- `reflect.DeepEqual` of two stored revisions but for their times.
unfoldable pub same_wire : WireRevision → WireRevision → Bool
unfolding same_list
same_wire a b =
    a.id == b.id && (same_option same_map a.repos b.repos && same_option same_list a.dirty b.dirty)

module _ {f : ForgeTypes} (env : Env f) where
  -- The manifest's files; one that cannot be read or decoded has none.
  abbrev pub files_of : Result String String → List String
  files_of (err message) = []
  files_of (ok written) = elim (env.decode_manifest written) [ none ↦ [] | some files ↦ files ]

  unfoldable pub generated_files : String → M f (List String)
  generated_files root =
      let path = join (root ∷ generated_manifest_path ∷ []) in
      ask (read_file path) (λ h. ok (files_of (env.on_read_file h path)))

  unfoldable pub resolve_repos : String → List String → List Repo → Resolved → M f Resolved
  unfolding exclusions_of
  resolve_repos root files [] done = pure done
  resolve_repos root files (repo ∷ repos) done = do
    let dir = join (root ∷ repo.name ∷ [])
    let words = "resolving the revision of " ++ₛ repo.name
    let exclude = exclusions_of repo.name files
    sha ← wrap words (ask (head_sha dir) (λ h. env.on_head_sha h dir))
    worktree ←
        wrap words (ask (worktree_hash dir exclude) (λ h. env.on_worktree_hash h dir exclude))
    resolve_repos root files repos (record {
      repos = (repo.name, sha) ∷ done.repos;
      dirty = if worktree == "" then done.dirty else done.dirty ++ repo.name ∷ [];
      worktrees = (repo.name, worktree) ∷ done.worktrees;
    })

  -- `resolveRevision`: the clock is read before the repos.
  unfoldable pub resolve_revision : Pipeline → String → M f Revision
  unfolding generated_files resolve_repos revision_of
  resolve_revision p root h =
      (do
        files ← generated_files root
        done ← resolve_repos root files p.repos (record { repos = []; dirty = []; worktrees = [] })
        pure (revision_of env.sha256_hex (env.now h) p done))
        h

  module _ (index : EngineIndex) where
    unfoldable pub write_revision : Revision → M f (Unit {0})
    write_revision revision =
        put_json env index kind_revision revision.id (env.encode_revision (to_wire revision))

    -- What stands under the revision's key, decoded: `sameBeyondItsTimestamp`.
    unfoldable pub mint_over : Revision → Option String → M f (Unit {0})
    unfolding write_revision same_wire to_wire
    mint_over revision none = write_revision revision
    mint_over revision (some written) = do
      recorded ← lift (elim (env.decode_revision written) [
        | none ↦ err (unreadable kind_revision revision.id)
        | some recorded ↦ ok recorded
      ])
      if same_wire recorded (to_wire revision) then pure tt else write_revision revision

    -- `mint`.
    unfoldable pub mint : Revision → M f (Unit {0})
    unfolding mint_over
    mint revision = get_json env index kind_revision revision.id >>= mint_over revision

    -- The decision is bound to its revision, unless it carries none.
    unfoldable pub pinned_to :
        Pipeline → String → String → ReleaseDecision → M f (Revision × ReleaseDecision)
    unfolding resolve_revision
    pinned_to p root id decision =
        if decision.revision.id == ""
        then (do revision ← resolve_revision p root; pure (revision, decision))
        else if decision.revision.id == id
        then pure (decision.revision, decision)
        else throw (other_revision id decision.revision.id)

    -- `pinnedRevision`.
    unfoldable pub pinned_revision : Pipeline → String → String → M f (Revision × ReleaseDecision)
    unfolding pinned_to
    pinned_revision p root id = read_evaluation env index id >>= pinned_to p root id
