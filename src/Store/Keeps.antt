-- ===== src/Store/Keeps.antt =====
-- internal/controller/statecontroller/statecontroller.go: which steps of `Put` keep what stands at a
-- path.
use forge_ci.Common.{
  String, ◌≢◌, ap, ◌∙◌, Bool, true, false, List, [], ◌∷◌, Option, none, some, ok, err, Result, ◌==◌,
  if◌then◌else◌,
}
use forge_ci.Common.Paths.{clean, join, rel}
use forge_ci.Common.Actions.{pure, lift, wrap}
use forge_ci.Common.Actions.Keeps.{
  Keeps, Keeps-pure, Keeps-throw, Keeps-lift, Keeps-if, Keeps-wrap, Keeps-bind,
}
use forge_ci.Adapters.{Fs, Git, GitError, rejected, failed}
use forge_ci.Store.{StoreError, while, of_git}
use forge_ci.Store.Files.{
  StateInput, ensure_lfs_attributes, attributes_if, read_if, retried, push_branch, push_remote,
  push, push_if, init_unless, install_if, inside, add_targets, commit_staged, commit_to, commit,
  keep_record,
}
use forge_ci.Store.Disk.{View, Under, IsDisk, GitKeeps, MaybeKeeps}

-- Everything that `put` asks of git keeps what git's operations keep.
module _ {W V : Type 0} (git : Git W) (seen : W → V) (keeps : GitKeeps git seen) where
  retried-Keeps :
      (root branch : String) (r : Result GitError (Unit {0}))
      → Keeps seen (retried git root branch r)
  unfolding retried
  retried-Keeps root branch (ok u) = Keeps-pure seen u
  retried-Keeps root branch (err (failed message)) = Keeps-throw seen (failed message)
  retried-Keeps root branch (err (rejected message)) =
      Keeps-bind seen (git.pull_rebase root branch) (λ u. git.push root branch)
        (keeps.pull_rebase_keeps root branch) (λ u. keeps.push_keeps root branch)

  push_branch-Keeps : (root branch : String) → Keeps seen (push_branch git root branch)
  unfolding push_branch
  push_branch-Keeps root branch = record {
    holds = λ w.
        (retried-Keeps root branch (git.push root branch w).0).holds (git.push root branch w).1
        ∙ (keeps.push_keeps root branch).holds w;
  }

  push_remote-Keeps : (root : String) (has : Bool) → Keeps seen (push_remote git root has)
  unfolding push_remote
  push_remote-Keeps root false = Keeps-pure seen tt
  push_remote-Keeps root true =
      Keeps-bind seen (git.branch root) (λ b. if b == "" then pure tt else push_branch git root b)
        (keeps.branch_keeps root)
        (λ b.
          Keeps-if seen (b == "") (pure tt) (push_branch git root b) (Keeps-pure seen tt)
            (push_branch-Keeps root b))

  add_targets-Keeps :
      (words : StoreError → StoreError) (root : String) (targets : List String)
      → Keeps seen (add_targets git words root targets)
  unfolding add_targets
  add_targets-Keeps words root [] = Keeps-pure seen []
  add_targets-Keeps words root (target ∷ targets) =
      Keeps-bind seen (wrap words (lift (inside root target (rel root target)))) _
        (Keeps-wrap seen words (lift (inside root target (rel root target))) (Keeps-lift seen _))
        (λ path.
          Keeps-bind seen (wrap (λ e. words (of_git e)) (git.add root path)) _
            (Keeps-wrap seen _ (git.add root path) (keeps.add_keeps root path))
            (λ u.
              Keeps-bind seen (add_targets git words root targets) _
                (add_targets-Keeps words root targets) (λ paths. Keeps-pure seen (path ∷ paths))))

  init_unless-Keeps : (root : String) (there : Bool) → Keeps seen (init_unless git root there)
  unfolding init_unless
  init_unless-Keeps root true = Keeps-pure seen tt
  init_unless-Keeps root false = keeps.init_keeps root

  install_if-Keeps : (root : String) (lfs : Bool) → Keeps seen (install_if git root lfs)
  unfolding install_if
  install_if-Keeps root false = Keeps-pure seen tt
  install_if-Keeps root true = keeps.lfs_install_keeps root

  commit_staged-Keeps :
      (root message : String) (paths : List String) (staged : Bool)
      → Keeps seen (commit_staged git root message paths staged)
  unfolding commit_staged
  commit_staged-Keeps root message paths false = Keeps-pure seen false
  commit_staged-Keeps root message paths true =
      Keeps-bind seen (git.commit root message paths) (λ u. pure true)
        (keeps.commit_keeps root message paths) (λ u. Keeps-pure seen true)

  commit_to-Keeps :
      (root : String) (targets : List String) (kind key : String) (lfs : Bool)
      → Keeps seen (commit_to git root targets kind key lfs)
  unfolding commit_to
  commit_to-Keeps root targets kind key lfs =
      search
        (
          Keeps-bind seen,
          Keeps-wrap seen,
          keeps.is_repo_keeps,
          keeps.staged_keeps,
          add_targets-Keeps,
          init_unless-Keeps,
          install_if-Keeps,
          commit_staged-Keeps,
        )
        depth 30

module _ {W V : Type 0} (seen : W → V) where
  commit-Keeps :
      (git : Option (Git W)) (root : String) (targets : List String) (kind key : String)
      (lfs : Bool)
      → MaybeKeeps git seen
      → Keeps seen (commit git root targets kind key lfs)
  unfolding commit
  commit-Keeps none root targets kind key lfs keeps = Keeps-pure seen false
  commit-Keeps (some git) root targets kind key lfs keeps =
      commit_to-Keeps git seen keeps root targets kind key lfs

  push-Keeps :
      (git : Option (Git W)) (root : String) → MaybeKeeps git seen → Keeps seen (push git root)
  unfolding push
  push-Keeps none root keeps = Keeps-pure seen tt
  push-Keeps (some git) root keeps =
      Keeps-bind seen (git.has_remote root) (push_remote git root) (keeps.has_remote_keeps root)
        (push_remote-Keeps git seen keeps root)

  push_if-Keeps :
      (git : Option (Git W)) (root kind key : String) (committed : Bool)
      → MaybeKeeps git seen
      → Keeps seen (push_if git root kind key committed)
  unfolding push_if
  push_if-Keeps git root kind key false keeps = Keeps-pure seen tt
  push_if-Keeps git root kind key true keeps =
      Keeps-wrap seen (λ e. while "recording" kind key (of_git e)) (push git root)
        (push-Keeps git root keeps)

module _ {W : Type 0} (fs : Fs W) (view : View W) (base : String) (disk : IsDisk fs view base) where
  -- What stands at one path.
  abbrev pub at : String → W → Option String
  at path w = view path w

  exists-Keeps : (path other : String) → Keeps (at path) (fs.exists other)
  exists-Keeps path other = record { holds = λ w. ap (view path) (disk.exists_keeps other w) }

  read_if-Keeps : (path other : String) (there : Bool) → Keeps (at path) (read_if fs other there)
  unfolding read_if
  read_if-Keeps path other false = Keeps-pure (at path) ""
  read_if-Keeps path other true = record { holds = λ w. ap (view path) (disk.read_keeps other w) }

  pub write-Keeps :
      (path other payload : String)
      → Under base other
      → Under base path
      → clean other ≢ clean path
      → Keeps (at path) (fs.write_file other payload)
  write-Keeps path other payload below under apart = record {
    holds = λ w. disk.write_keeps other path payload w below under apart;
  }

  ensure-Keeps :
      (path root dir : String)
      → Under base (join (root ∷ ".gitattributes" ∷ []))
      → Under base path
      → clean (join (root ∷ ".gitattributes" ∷ [])) ≢ clean path
      → Keeps (at path) (ensure_lfs_attributes fs root dir)
  unfolding ensure_lfs_attributes
  ensure-Keeps path root dir below under apart =
      search
        (
          Keeps-bind (at path),
          Keeps-if (at path),
          Keeps-pure (at path),
          exists-Keeps,
          read_if-Keeps,
          write-Keeps,
        )
        depth 30

  attributes_if-Keeps :
      (path root : String) (i : StateInput) (lfs : Bool)
      → Under base (join (root ∷ ".gitattributes" ∷ []))
      → Under base path
      → clean (join (root ∷ ".gitattributes" ∷ [])) ≢ clean path
      → Keeps (at path) (attributes_if fs root i lfs)
  unfolding attributes_if
  attributes_if-Keeps path root i false below under apart = Keeps-pure (at path) []
  attributes_if-Keeps path root i true below under apart =
      search
        (
          Keeps-bind (at path),
          Keeps-wrap (at path),
          Keeps-pure (at path),
          Keeps-lift (at path),
          ensure-Keeps,
        )
        depth 30

  pub keep_record-Keeps :
      (path root target : String) (git : Option (Git W)) (i : StateInput)
      → Under base (join (root ∷ ".gitattributes" ∷ []))
      → Under base path
      → clean (join (root ∷ ".gitattributes" ∷ [])) ≢ clean path
      → MaybeKeeps git (at path)
      → Keeps (at path) (keep_record fs git i root target)
  unfolding keep_record
  keep_record-Keeps path root target git i below under apart keeps =
      search
        (
          Keeps-bind (at path),
          Keeps-wrap (at path),
          Keeps-lift (at path),
          attributes_if-Keeps,
          commit-Keeps (at path),
          push_if-Keeps (at path),
        )
        depth 30
