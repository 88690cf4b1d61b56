-- ===== src/Store/Files.antt =====
-- internal/controller/statecontroller/statecontroller.go: the operations of the state engine over a
-- file system and, where there is one, git. `filepath.FromSlash` changes nothing where a separator is
-- a slash.
use forge_ci.Common.{
  String, Bool, true, false, not, ◌&&◌, ◌||◌, List, [], ◌∷◌, Option, none, some, Result, ok, err,
  ◌==◌, map, member, lookup_or, if◌then◌else◌, ◌++ₛ◌,
}
use forge_ci.Common.Actions.{Action, pure, throw, lift, ◌>>=◌, ◌>>◌, wrap}
use forge_ci.Common.Paths.{join, rel, split}
use forge_ci.Common.Text.{has_suffix, trim_space, trim_suffix}
use forge_ci.Adapters.{Fs, Git, GitError, rejected, failed}
use forge_ci.Types.{Spec}
use forge_ci.Store.{
  StoreError, outside, of_disk, of_git, while, listing, kinds_for, lfs_for, dir_of, root_of,
  path_for,
}
use text.Mathlib.Text.{starts_with}

-- `StateGetInput` and `StatePutInput`, whose payload stands apart.
pub record StateInput : Type 0 where
  pub kind : String
  pub key : String
  pub spec : Spec

-- A record that is found is its payload.
abbrev pub Found : Type 0
Found = Option String

unfoldable pub rule_of : String → String
rule_of dir = dir ++ₛ "/** filter=lfs diff=lfs merge=lfs -text"

-- The loop of `ensureLFSAttributes`.
unfoldable pub has_rule : String → List String → Bool
has_rule rule [] = false
has_rule rule (line ∷ lines) = trim_space line == rule || has_rule rule lines

-- The text that has the rule as its last line.
unfoldable pub with_rule : String → String → String
with_rule rule existing =
    if not (existing == "") && not (has_suffix existing "\n")
    then (existing ++ₛ "\n") ++ₛ (rule ++ₛ "\n")
    else existing ++ₛ (rule ++ₛ "\n")

module _ {W : Type 0} (fs : Fs W) where
  -- What a file holds, and nothing where it is not there.
  unfoldable pub read_if : String → Bool → Action String W String
  read_if path false = pure ""
  read_if path true = fs.read_file path

  -- `ensureLFSAttributes`.
  unfoldable pub ensure_lfs_attributes : String → String → Action String W String
  unfolding read_if has_rule with_rule rule_of
  ensure_lfs_attributes root dir = do
    let path = join (root ∷ ".gitattributes" ∷ [])
    there ← fs.exists path
    existing ← read_if path there
    if has_rule (rule_of dir) (split b'\n' existing)
        then pure path
        else fs.write_file path (with_rule (rule_of dir) existing) >> pure path

  unfoldable pub found_at : String → Bool → Action String W Found
  found_at target false = pure none
  found_at target true = do payload ← fs.read_file target; pure (some payload)

  -- `Controller.Get`.
  unfoldable pub get : StateInput → Action StoreError W Found
  unfolding found_at
  get i = do
    target ← lift (path_for i.spec i.kind i.key)
    wrap (λ e. while "reading" i.kind i.key (of_disk e))
        (do there ← fs.exists target; found_at target there)

  -- `Controller.List`.
  unfoldable pub list : StateInput → Action StoreError W (List String)
  list i = do
    root ← lift (root_of i.spec)
    known ← lift (kinds_for i.spec)
    dir ← wrap (listing i.kind) (lift (dir_of i.kind known))
    names ← wrap (λ e. listing i.kind (of_disk e)) (fs.walk (join (root ∷ dir ∷ i.key ∷ [])))
    pure (map (λ name. trim_suffix name ".json") names)

-- A path from the root, unless it leads out of it.
unfoldable pub inside : String → String → Option String → Result StoreError String
inside root target none = err (outside target root)
inside root target (some path) =
    if starts_with path ".." then err (outside target root) else ok path

module _ {W : Type 0} (git : Git W) where
  -- The answer to a first push.
  unfoldable pub retried :
      String → String → Result GitError (Unit {0}) → Action GitError W (Unit {0})
  retried root branch (ok u) = pure u
  retried root branch (err (failed message)) = throw (failed message)
  retried root branch (err (rejected message)) = git.pull_rebase root branch >> git.push root branch

  unfoldable pub push_branch : String → String → Action GitError W (Unit {0})
  unfolding retried
  push_branch root branch w = let (r, later) = git.push root branch w in retried root branch r later

  unfoldable pub push_remote : String → Bool → Action GitError W (Unit {0})
  unfolding push_branch
  push_remote root false = pure tt
  push_remote root true = do
    branch ← git.branch root
    if branch == "" then pure tt else push_branch root branch

  unfoldable pub init_unless : String → Bool → Action GitError W (Unit {0})
  init_unless root true = pure tt
  init_unless root false = git.init root

  unfoldable pub install_if : String → Bool → Action GitError W (Unit {0})
  install_if root false = pure tt
  install_if root true = git.lfs_install root

  -- The loop of `commit`.
  unfoldable pub add_targets :
      (StoreError → StoreError) → String → List String → Action StoreError W (List String)
  unfolding inside
  add_targets words root [] = pure []
  add_targets words root (target ∷ targets) = do
    path ← wrap words (lift (inside root target (rel root target)))
    wrap (λ e. words (of_git e)) (git.add root path)
    paths ← add_targets words root targets
    pure (path ∷ paths)

  unfoldable pub commit_staged : String → String → List String → Bool → Action GitError W Bool
  commit_staged root message paths false = pure false
  commit_staged root message paths true = git.commit root message paths >> pure true

  unfoldable pub commit_to :
      String → List String → (kind key : String) → Bool → Action StoreError W Bool
  unfolding init_unless install_if add_targets commit_staged
  commit_to root targets kind key lfs = do
    let words = while "recording" kind key
    is_repo ← wrap (λ e. words (of_git e)) (git.is_repo root)
    wrap (λ e. words (of_git e)) (init_unless root is_repo)
    wrap (λ e. words (of_git e)) (install_if root lfs)
    paths ← add_targets words root targets
    staged ← wrap (λ e. words (of_git e)) (git.staged root paths)
    wrap (λ e. words (of_git e)) (commit_staged root ("ci: " ++ₛ kind ++ₛ " " ++ₛ key) paths staged)

module _ {W : Type 0} where
  -- `push`.
  unfoldable pub push : Option (Git W) → String → Action GitError W (Unit {0})
  unfolding push_remote
  push none root = pure tt
  push (some git) root = do has ← git.has_remote root; push_remote git root has

  -- `commit`: whether there was one.
  unfoldable pub commit :
      Option (Git W) → String → List String → (kind key : String) → Bool → Action StoreError W Bool
  unfolding commit_to
  commit none root targets kind key lfs = pure false
  commit (some git) root targets kind key lfs = commit_to git root targets kind key lfs

  unfoldable pub push_if :
      Option (Git W) → String → (kind key : String) → Bool → Action StoreError W (Unit {0})
  unfolding push
  push_if git root kind key false = pure tt
  push_if git root kind key true = wrap (λ e. while "recording" kind key (of_git e)) (push git root)

  -- The files that a record's write has touched besides its own.
  unfoldable pub attributes_if :
      Fs W → String → StateInput → Bool → Action StoreError W (List String)
  unfolding ensure_lfs_attributes
  attributes_if fs root i false = pure []
  attributes_if fs root i true = do
    known ← lift (kinds_for i.spec)
    path ←
        wrap (λ e. while "writing" i.kind i.key (of_disk e))
          (ensure_lfs_attributes fs root (lookup_or "" i.kind known))
    pure (path ∷ [])

  -- What `Put` does once the record is written.
  unfoldable pub keep_record :
      Fs W → Option (Git W) → StateInput → (root target : String) → Action StoreError W (Unit {0})
  unfolding attributes_if commit push_if
  keep_record fs git i root target = do
    lfs ← wrap (while "writing" i.kind i.key) (lift (lfs_for i.spec))
    more ← attributes_if fs root i (member i.kind lfs)
    committed ← commit git root (target ∷ more) i.kind i.key (member i.kind lfs)
    push_if git root i.kind i.key committed

  -- `Controller.Put`.
  unfoldable pub put : Fs W → Option (Git W) → StateInput → String → Action StoreError W Found
  unfolding keep_record
  put fs git i payload = do
    root ← lift (root_of i.spec)
    target ← lift (path_for i.spec i.kind i.key)
    wrap (λ e. while "writing" i.kind i.key (of_disk e)) (fs.write_file target payload)
    keep_record fs git i root target
    pure (some payload)
