-- ===== src/Adapters.antt =====
-- internal/adapter: the interfaces to the file system and to git, over a world `W` that each operation
-- takes and hands back. Their implementations run other programs and the system's calls.
use forge_ci.Common.{String, Bool, List, Result}

-- `fsadapter.FS`, of which this is what the modelled code calls.
pub record Fs (W : Type 0) : Type 0 where
  pub exists : String → W → Result String Bool × W
  pub mkdir_all : String → W → Result String (Unit {0}) × W
  pub read_file : String → W → Result String String × W
  pub write_file : String → String → W → Result String (Unit {0}) × W
  pub walk : String → W → Result String (List String) × W

-- An error of git: `ErrRejected`, which the code tests for, or another.
pub data GitError : Type 0 where
  rejected failed : (message : String) → GitError

-- `gitadapter.Git`, of which this is what the modelled code calls.
pub record Git (W : Type 0) : Type 0 where
  pub init : (dir : String) → W → Result GitError (Unit {0}) × W
  pub is_repo : (dir : String) → W → Result GitError Bool × W
  pub add : (dir path : String) → W → Result GitError (Unit {0}) × W
  pub staged : (dir : String) (paths : List String) → W → Result GitError Bool × W
  pub commit : (dir message : String) (paths : List String) → W → Result GitError (Unit {0}) × W
  pub has_remote : (dir : String) → W → Result GitError Bool × W
  pub branch : (dir : String) → W → Result GitError String × W
  pub push : (dir branch : String) → W → Result GitError (Unit {0}) × W
  pub pull_rebase : (dir branch : String) → W → Result GitError (Unit {0}) × W
  pub lfs_install : (dir : String) → W → Result GitError (Unit {0}) × W
