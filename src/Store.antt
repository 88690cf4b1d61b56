-- ===== src/Store.antt =====
-- internal/controller/statecontroller/statecontroller.go: the state engine, which keeps records of
-- kinds under keys in files of a repository.
pub mod Kinds
pub mod Files
pub mod Paths
pub mod Inside
pub mod Apart
pub mod Disk
pub mod Under
pub mod Keeps
pub mod RoundTrip
pub mod Rules
mod Tests
use forge_ci.Common.{
  String, Bool, true, false, not, ◌||◌, List, [], ◌∷◌, ◌++◌, Option, none, some, Result, ok, err,
  ◌==◌, map, member, lookup, has_key, if◌then◌else◌, ◌++ₛ◌,
}
use forge_ci.Common.{◌>>=◌}
use forge_ci.Common.Text.{is_blank, trim_space}
use forge_ci.Common.Paths.{clean, is_rooted, join}
use forge_ci.Config.Problems.{is_kebab}
use forge_ci.Types.{Spec, Value, Values, list, text, nil, cons, text_at, Resource}
use forge_ci.Adapters.{GitError}

-- The four errors with a name, `key is required`, `is outside the state root`, those of the file system
-- and of git, and the words that wrap them.
pub data StoreError : Type 0 where
  no_path no_kinds no_lfs : StoreError
  not_kebab not_text : Value → StoreError
  undeclared : (name : String) → StoreError
  unknown_kind : (kind : String) → StoreError
  no_key : (kind : String) → StoreError
  outside : (target root : String) → StoreError
  of_disk : (message : String) → StoreError
  of_git : GitError → StoreError
  while : (doing kind key : String) → StoreError → StoreError
  listing : (kind : String) → StoreError → StoreError

abbrev pub Kinds : Type 0
Kinds = List (String × String)

-- `kinds`.
abbrev pub built_in_kinds : Kinds
built_in_kinds =
    ("revision", "revisions") ∷ ("run", "runs") ∷ ("owned", "owned") ∷ ("release", "releases") ∷ []

abbrev pub with_kind : String → Kinds → Kinds
with_kind name merged = if has_key name merged then merged else (name, name) ∷ merged

-- The loop of `kindsFor`.
unfoldable pub add_kinds : Values → Kinds → Result StoreError Kinds
add_kinds nil merged = ok merged
add_kinds (cons (text name) vs) merged =
    let rest = add_kinds vs (with_kind name merged) in
    if is_kebab name then rest else err (not_kebab (text name))
add_kinds (cons v vs) merged = err (not_kebab v)

unfoldable pub kinds_from : Option Value → Result StoreError Kinds
unfolding add_kinds
kinds_from none = ok built_in_kinds
kinds_from (some (list vs)) = add_kinds vs built_in_kinds
kinds_from (some v) = err no_kinds

-- `kindsFor`.
unfoldable pub kinds_for : Spec → Result StoreError Kinds
unfolding kinds_from
kinds_for spec = kinds_from (lookup "kinds" spec)

-- The loop of `lfsFor`.
unfoldable pub lfs_names : Kinds → Values → Result StoreError (List String)
lfs_names known nil = ok []
lfs_names known (cons (text name) vs) =
    let rest = lfs_names known vs in
    if has_key name known then rest >>= (λ names. ok (name ∷ names)) else err (undeclared name)
lfs_names known (cons v vs) = err (not_text v)

unfoldable pub lfs_from : Result StoreError Kinds → Option Value → Result StoreError (List String)
unfolding lfs_names
lfs_from known none = ok []
lfs_from known (some (list vs)) = known >>= (λ kinds. lfs_names kinds vs)
lfs_from known (some v) = err no_lfs

-- `lfsFor`: the kinds that are set.
unfoldable pub lfs_for : Spec → Result StoreError (List String)
unfolding lfs_from kinds_for
lfs_for spec = lfs_from (kinds_for spec) (lookup "lfs" spec)

-- `rootOf`.
unfoldable pub root_of : Spec → Result StoreError String
root_of spec =
    let dir = text_at "path" spec in
    let root = text_at "root" spec in
    if is_blank dir
    then err no_path
    else if root == "" || is_rooted dir
    then ok dir
    else ok (join (root ∷ dir ∷ []))

unfoldable pub dir_of : String → Kinds → Result StoreError String
dir_of kind known = elim (lookup kind known) [ none ↦ err (unknown_kind kind) | some dir ↦ ok dir ]

-- The path of a key below the directory of its kind.
unfoldable pub file_of : String → String
file_of key = clean ("/" ++ₛ trim_space key) ++ₛ ".json"

-- `pathFor`.
unfoldable pub path_for : Spec → String → String → Result StoreError String
unfolding root_of kinds_for dir_of file_of
path_for spec kind key = do
  root ← root_of spec
  known ← kinds_for spec
  dir ← dir_of kind known
  if key == "" then err (no_key kind) else ok (join (root ∷ dir ∷ file_of key ∷ []))

-- `Controller.Declare`.
unfoldable pub declare : Spec → Result StoreError (List Resource)
unfolding root_of kinds_for
declare spec = do
  root ← root_of spec
  known ← kinds_for spec
  ok (record { kind = "directory"; name = root; bootstrap_only = false; spec = [] } ∷ [])
