-- ===== src/Store/Tests.antt =====
-- Runs of the state engine over a disk in memory, and the theorems at them.
use forge_ci.Common.{
  String, ◌≡◌, ◌≢◌, refl, ap, Bool, true, false, if◌then◌else◌, List, [], ◌∷◌, Option, none, some,
  Result, ok, ok_inj, err, lookup, arith, eq_iff, ==_false, ==_refl,
}
use forge_ci.Common.Paths.{clean, join, rel}
use forge_ci.Common.Actions.{pure, throw, lift, ◌>>=◌, wrap}
use forge_ci.Adapters.{Fs, Git, GitError, rejected}
use forge_ci.Common.Text.{trim_space, trim_suffix}
use forge_ci.Config.Problems.{is_kebab}
use forge_ci.Types.{text_at, Spec, text, list, cons, nil}
use forge_ci.Store.{
  Kinds, kinds_for, lfs_for, root_of, path_for, dir_of, file_of, declare, unknown_kind,
}
use forge_ci.Store.Kinds.{kinds_for-IsStore, IsStore}
use forge_ci.Store.Files.{
  get, put, ensure_lfs_attributes, rule_of, has_rule, with_rule, inside, keep_record, attributes_if,
  commit, commit_to, init_unless, install_if, add_targets, commit_staged, push_if, push,
  push_remote, push_branch, retried,
}
use forge_ci.Store.Files
use forge_ci.Store.Paths.{path_for-Below, Below}
use forge_ci.Store.Inside.{path_for-inside}
use forge_ci.Store.Disk.{IsDisk, View, GitKeeps}
use forge_ci.Store.RoundTrip.{put-get, at_key}
use forge_ci.Store.Rules.{ensure-ensure}

-- A disk: what was written last comes first, and each path is cleaned.
abbrev Disk : Type 0
Disk = List (String × String)

abbrev view : View Disk
view path disk = lookup (clean path) disk

abbrev is_there : Option String → Bool
is_there none = false
is_there (some content) = true

abbrev reading : Option String → Disk → Result String String × Disk
reading none disk = (err "no such file", disk)
reading (some content) disk = (ok content, disk)

abbrev fs : Fs Disk
fs = record {
  exists = λ path disk. (ok (is_there (view path disk)), disk);
  mkdir_all = λ path disk. (ok tt, disk);
  read_file = λ path disk. reading (view path disk) disk;
  write_file = λ path content disk. (ok tt, (clean path, content) ∷ disk);
  walk = λ path disk. (ok (path ∷ []), disk);
}

reading-keeps : (found : Option String) (disk : Disk) → (reading found disk).1 ≡ disk
reading-keeps none disk = refl
reading-keeps (some content) disk = refl

reading-tells :
    (found : Option String) (disk : Disk) (content : String)
    → (reading found disk).0 ≡ ok content
    → found ≡ some content
reading-tells none disk content e = cc
reading-tells (some other) disk content e = ap some (ok_inj e)

fs-IsDisk : (root : String) → IsDisk fs view root
fs-IsDisk root = record {
  exists_sees = λ path payload w e. ap (λ v. ok (is_there v)) e;
  exists_keeps = λ path w. refl;
  read_sees = λ path payload w e. ap (λ v. (reading v w).0) e;
  read_tells = λ path payload w e. reading-tells (view path w) w payload e;
  read_keeps = λ path w. reading-keeps (view path w) w;
  write_sees = λ path payload w under e. ground (arith, ==_refl (clean path));
  write_keeps = λ path other payload w below under apart.
      ground (arith, ==_false (clean path) (clean other) apart);
}

-- A git whose first push is refused until it has pulled: a commit makes it run behind.
abbrev Shared : Type 0
Shared = Bool × Disk

abbrev shared_view : View Shared
shared_view path w = view path w.1

abbrev shared : Fs Shared
shared = record {
  exists = λ path w. (ok (is_there (shared_view path w)), w);
  mkdir_all = λ path w. (ok tt, w);
  read_file = λ path w. ((reading (shared_view path w) w.1).0, w);
  write_file = λ path content w. (ok tt, (w.0, (clean path, content) ∷ w.1));
  walk = λ path w. (ok (path ∷ []), w);
}

shared-IsDisk : (root : String) → IsDisk shared shared_view root
shared-IsDisk root = record {
  exists_sees = λ path payload w e. ap (λ v. ok (is_there v)) e;
  exists_keeps = λ path w. refl;
  read_sees = λ path payload w e. ap (λ v. (reading v w.1).0) e;
  read_tells = λ path payload w e. reading-tells (shared_view path w) w.1 payload e;
  read_keeps = λ path w. refl;
  write_sees = λ path payload w under e. ground (arith, ==_refl (clean path));
  write_keeps = λ path other payload w below under apart.
      ground (arith, ==_false (clean path) (clean other) apart);
}

abbrev pushed : Bool → Result GitError (Unit {0})
pushed behind = if behind then err (rejected "fetch first") else ok tt

abbrev git : Git Shared
git = record {
  init = λ dir w. (ok tt, w);
  is_repo = λ dir w. (ok true, w);
  add = λ dir path w. (ok tt, w);
  staged = λ dir paths w. (ok true, w);
  commit = λ dir message paths w. (ok tt, (true, w.1));
  has_remote = λ dir w. (ok true, w);
  branch = λ dir w. (ok "main", w);
  push = λ dir branch w. (pushed w.0, w);
  pull_rebase = λ dir branch w. (ok tt, (false, w.1));
  lfs_install = λ dir w. (ok tt, w);
}

git-GitKeeps : (path : String) → GitKeeps git (λ w. shared_view path w)
git-GitKeeps path = record {
  init_keeps = λ dir. record { holds = λ w. refl };
  is_repo_keeps = λ dir. record { holds = λ w. refl };
  add_keeps = λ dir file. record { holds = λ w. refl };
  staged_keeps = λ dir paths. record { holds = λ w. refl };
  commit_keeps = λ dir message paths. record { holds = λ w. refl };
  has_remote_keeps = λ dir. record { holds = λ w. refl };
  branch_keeps = λ dir. record { holds = λ w. refl };
  push_keeps = λ dir branch. record { holds = λ w. refl };
  pull_rebase_keeps = λ dir branch. record { holds = λ w. refl };
  lfs_install_keeps = λ dir. record { holds = λ w. refl };
}

abbrev spec : Spec
spec =
    ("path", text "../state")
    ∷ ("root", text "/work/member")
    ∷ ("kinds", list (cons (text "locks") nil))
    ∷ ("lfs", list (cons (text "locks") nil))
    ∷ []

program : Unit {0}
unfolding path_for file_of root_of kinds_for dir_of lfs_for declare join rel get put
    ensure_lfs_attributes rule_of has_rule with_rule inside pure throw lift ◌>>=◌ wrap Files.list
    trim_space text_at is_kebab trim_suffix
program = tt

git_program : Unit {0}
unfolding program keep_record attributes_if commit commit_to init_unless install_if add_targets
    commit_staged push_if push push_remote push_branch retried
git_program = tt

locks_path : path_for spec "locks" " ../a/./b " ≡ ok "/work/state/locks/a/b.json"
unfolding program
locks_path = refl

spec_root : root_of spec ≡ ok "/work/state"
unfolding program
spec_root = refl

no_kind : path_for spec "lock" "a" ≡ err (unknown_kind "lock")
unfolding program
no_kind = refl

-- A key of `List` is not cleaned as a record's key is: it can lead out of the kind's directory.
list-walks :
    Files.list fs (at_key spec "run" "../../elsewhere") [] ≡ (ok ("/work/elsewhere" ∷ []), [])
unfolding program
list-walks = refl

abbrev known : Kinds
known =
    ("locks", "locks")
    ∷ ("revision", "revisions")
    ∷ ("run", "runs")
    ∷ ("owned", "owned")
    ∷ ("release", "releases")
    ∷ []

spec_kinds : kinds_for spec ≡ ok known
unfolding program
spec_kinds = refl

kinds_for-IsStore_example : IsStore known
kinds_for-IsStore_example = kinds_for-IsStore spec spec_kinds

path_for-Below_example : Below spec "locks" " ../a/./b " "/work/state/locks/a/b.json"
path_for-Below_example =
    path_for-Below spec "locks" " ../a/./b " "/work/state/locks/a/b.json" locks_path

path_for-inside_example :
    (relative : String) × (inside "/work/state" "/work/state/locks/a/b.json"
        (rel "/work/state" "/work/state/locks/a/b.json")
      ≡ ok relative)
path_for-inside_example =
    path_for-inside spec "locks" " ../a/./b " "/work/state" "/work/state/locks/a/b.json" spec_root
      locks_path

same_locks_path : path_for spec "locks" "a/b" ≡ ok "/work/state/locks/a/b.json"
unfolding program
same_locks_path = refl

put-answers : (put fs none (at_key spec "locks" "a/b") "{}" []).0 ≡ ok (some "{}")
unfolding program
put-answers = refl

put-writes :
    (put fs none (at_key spec "locks" "a/b") "{}" []).1
    ≡ ("/work/state/.gitattributes", "locks/** filter=lfs diff=lfs merge=lfs -text\n")
      ∷ ("/work/state/locks/a/b.json", "{}")
      ∷ []
unfolding program
put-writes = refl

abbrev start : Shared
start = (false, [])

put-shared : (put shared (some git) (at_key spec "locks" "a/b") "{}" start).0 ≡ ok (some "{}")
unfolding git_program
put-shared = refl

put-get_example :
    get shared
      (at_key spec "locks" "a/b")
      (put shared (some git) (at_key spec "locks" "a/b") "{}" start).1
    ≡ (ok (some "{}"), (put shared (some git) (at_key spec "locks" "a/b") "{}" start).1)
put-get_example =
    put-get shared shared_view "/work/state" (shared-IsDisk "/work/state") (some git)
      (at_key spec "locks" "a/b") "/work/state/locks/a/b.json" "{}" start (some "{}") spec_root
      same_locks_path (git-GitKeeps "/work/state/locks/a/b.json") put-shared

locks_kebab : is_kebab "locks" ≡ true
unfolding is_kebab
locks_kebab = refl

ensured : (ensure_lfs_attributes fs "/work/state" "locks" []).0 ≡ ok "/work/state/.gitattributes"
unfolding program
ensured = refl

state_named : ◌≢◌ {A = String} "/work/state" ""
state_named = ground (arith, eq_iff "/work/state" "")

ensure-ensure_example :
    ensure_lfs_attributes fs "/work/state" "locks"
      (ensure_lfs_attributes fs "/work/state" "locks" []).1
    ≡ (
      ok (join ("/work/state" ∷ ".gitattributes" ∷ [])),
      (ensure_lfs_attributes fs "/work/state" "locks" []).1,
    )
ensure-ensure_example =
    ensure-ensure fs view "/work/state" (fs-IsDisk "/work/state") "locks"
      "/work/state/.gitattributes" [] state_named locks_kebab ensured
