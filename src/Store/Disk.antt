-- ===== src/Store/Disk.antt =====
-- internal/adapter: what the state engine relies on of the file system and of git.
use forge_ci.Common.{String, ◌≡◌, ◌≢◌, ap, ◌∙◌, true, List, ◌++◌, Option, none, some, ok}
use forge_ci.Common.Paths.{clean, is_rooted, render, stack_of}
use forge_ci.Common.Paths.Joined.{IsDescent}
use forge_ci.Common.Actions.Keeps.{Keeps}
use forge_ci.Adapters.{Fs, Git}

-- What the files of a world hold: nothing for a directory, and for a file that cannot be read.
abbrev pub View : Type 0 → Type 0
View W = String → W → Option String

-- A path below the root, by names that lead down.
abbrev pub Under : String → String → Type 0
Under root path =
    (names : List String) × IsDescent names
    × (path ≡ render (is_rooted root) (names ++ stack_of root))

-- A file system over the worlds in which directories, and files that may be read, stand below the root,
-- and no links: to
-- look changes nothing; what can be read is there; a file holds what was written to it last; and to write
-- to one, which may make directories or fail, leaves those alone that stand at other paths below the root.
-- A directory is there and cannot be read, and either question may fail for what holds nothing.
pub record IsDisk {W : Type 0} (fs : Fs W) (view : View W) (root : String) : Type 0 where
  pub exists_sees :
      (path payload : String) (w : W) → view path w ≡ some payload → (fs.exists path w).0 ≡ ok true
  pub exists_keeps : (path : String) (w : W) → (fs.exists path w).1 ≡ w
  pub read_sees :
      (path payload : String) (w : W)
      → view path w ≡ some payload
      → (fs.read_file path w).0 ≡ ok payload
  pub read_tells :
      (path payload : String) (w : W)
      → (fs.read_file path w).0 ≡ ok payload
      → view path w ≡ some payload
  pub read_keeps : (path : String) (w : W) → (fs.read_file path w).1 ≡ w
  pub write_sees :
      (path payload : String) (w : W)
      → Under root path
      → (fs.write_file path payload w).0 ≡ ok tt
      → view path (fs.write_file path payload w).1 ≡ some payload
  pub write_keeps :
      (path other payload : String) (w : W)
      → Under root path
      → Under root other
      → clean path ≢ clean other
      → view other (fs.write_file path payload w).1 ≡ view other w

pub pair_eq : {A B : Type 0} (x : A × B) {a : A} {b : B} → x.0 ≡ a → x.1 ≡ b → x ≡ (a, b)
pair_eq x {a} {b} e f = ap (λ y. (y, x.1)) e ∙ ap (λ y. (a, y)) f

-- Git leaves a file as it is. For `pull_rebase` this says that the worlds are those in which nobody
-- else writes that record.
pub record GitKeeps {W V : Type 0} (git : Git W) (seen : W → V) : Type 0 where
  pub init_keeps : (dir : String) → Keeps seen (git.init dir)
  pub is_repo_keeps : (dir : String) → Keeps seen (git.is_repo dir)
  pub add_keeps : (dir path : String) → Keeps seen (git.add dir path)
  pub staged_keeps : (dir : String) (paths : List String) → Keeps seen (git.staged dir paths)
  pub commit_keeps :
      (dir message : String) (paths : List String) → Keeps seen (git.commit dir message paths)
  pub has_remote_keeps : (dir : String) → Keeps seen (git.has_remote dir)
  pub branch_keeps : (dir : String) → Keeps seen (git.branch dir)
  pub push_keeps : (dir branch : String) → Keeps seen (git.push dir branch)
  pub pull_rebase_keeps : (dir branch : String) → Keeps seen (git.pull_rebase dir branch)
  pub lfs_install_keeps : (dir : String) → Keeps seen (git.lfs_install dir)

abbrev pub MaybeKeeps : {W V : Type 0} → Option (Git W) → (W → V) → Type 0
MaybeKeeps none seen = Unit
MaybeKeeps (some git) seen = GitKeeps git seen
