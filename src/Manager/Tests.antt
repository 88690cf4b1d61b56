-- ===== src/Manager/Tests.antt =====
-- Runs of the managers, and the theorems at them.
use forge_ci.Common.{
  String, ◌≡◌, ◌≢◌, refl, Bool, true, false, List, [], ◌∷◌, none, some, ok, err, ◌==◌, member,
  eq_iff, arith, inl, inr, if◌then◌else◌,
}
use forge_ci.Common.Sort.{sort_by, le_text}
use forge_ci.Types.{
  Resource, text, Ownership, ReconcileInput, ReconcileOutput, resource_id, text_at,
}
use forge_ci.Adapters.{Fs}
use forge_ci.Manager.{
  reconcile, handle, gather, settle_all, settle_with, finish, finished, record_state, write_record,
  is_same, refused, unless, realizes, owners_of, claimed, take_up, sorted_owned, answer_of, would,
}
use forge_ci.Manager.Local.{
  local_realizer, realize_local, make_directory, make_file, unless_there, made, dry_run_realizer,
  realize_dry,
}
use forge_ci.Manager.Owned.{holding, AgreesApart, reconcile-owned, reconcile-elsewhere}
use forge_ci.Manager.DryRun.{reconcile_quiet, local_realizer-IsQuiet}
use forge_ci.Manager.Bootstrap.{Way, AgreesOutsideBootstrap, with_way, reconcile_same}

-- A disk: the paths that are there.
abbrev Disk : Type 0
Disk = List String

abbrev fs : Fs Disk
fs = record {
  exists = λ path disk. (ok (member path disk), disk);
  mkdir_all = λ path disk. (ok tt, path ∷ disk);
  read_file = λ path disk. (err "no such file", disk);
  write_file = λ path content disk. (ok tt, path ∷ disk);
  walk = λ path disk. (ok disk, disk);
}

abbrev encode : (manager kind : String) → List Ownership → List String → String
encode manager kind owned actions = manager

abbrev workflow : Resource
workflow = record {
  kind = "file";
  name = "ci.yaml";
  bootstrap_only = false;
  spec = ("content", text "on: push") ∷ [];
}

abbrev store : Resource
store = record { kind = "directory"; name = "state"; bootstrap_only = true; spec = [] }

abbrev input : (bootstrap dry_run : Bool) → List Ownership → ReconcileInput
input bootstrap dry_run owned = record {
  manager = "files";
  resources = workflow ∷ store ∷ [];
  owned = owned;
  bootstrap = bootstrap;
  spec = ("statePath", text "files.json") ∷ [];
  dry_run = dry_run;
  force = false;
  commit_prefix = "";
}

program : Unit {0}
unfolding reconcile handle gather settle_all settle_with finish finished record_state write_record
    is_same refused unless realizes owners_of claimed take_up sorted_owned answer_of would
    local_realizer realize_local make_directory make_file unless_there made resource_id text_at
    dry_run_realizer realize_dry
program = tt

abbrev answer : ReconcileOutput
answer = record {
  owned =
      record { resource = "directory/state"; manager = "files" }
      ∷ record { resource = "file/ci.yaml"; manager = "files" }
      ∷ [];
  actions = "created file ci.yaml" ∷ "left directory/state alone: only a bootstrap writes it" ∷ [];
  changed = true;
  published = false;
}

reconcile_later :
    reconcile (local_realizer fs) (some fs) encode (input false false []) []
    ≡ (ok answer, "files.json" ∷ "ci.yaml" ∷ [])
unfolding program
reconcile_later = refl

reconcile-answer :
    (reconcile (local_realizer fs) (some fs) encode (input false false []) []).0 ≡ ok answer
unfolding program
reconcile-answer = refl

reconcile-owned_example :
    answer.owned
    ≡ sort_by (λ a b. le_text a.resource b.resource) (holding "files" (workflow ∷ store ∷ []))
reconcile-owned_example =
    reconcile-owned (local_realizer fs) (some fs) encode (input false false []) [] answer
      reconcile-answer

abbrev taken : List Ownership
taken = record { resource = "directory/state"; manager = "github" } ∷ []

github-files : ◌≢◌ {A = String} "github" "files"
github-files = ground (arith, eq_iff "github" "files")

reconcile_quiet_example :
    (reconcile (local_realizer fs) (some fs) encode (input true true []) []).1 ≡ []
reconcile_quiet_example =
    reconcile_quiet (local_realizer fs) (some fs) encode (input true true []) []
      (local_realizer-IsQuiet fs (λ path w. refl)) refl

-- A realizer that would refuse what only a bootstrap writes.
abbrev cautious : Way Disk
cautious r opts disk =
    let answered = realize_local fs r opts disk in
    if r.bootstrap_only then (err "not now", disk) else answered

cautious-Agrees : AgreesOutsideBootstrap cautious (realize_local fs)
cautious-Agrees r opts disk late = rw late refl

reconcile_same_example :
    reconcile (with_way (local_realizer fs) cautious) (some fs) encode (input false false []) []
    ≡ reconcile
        (with_way (local_realizer fs) (realize_local fs))
        (some fs)
        encode
        (input false false [])
        []
reconcile_same_example =
    reconcile_same (local_realizer fs) (some fs) encode cautious (realize_local fs)
      (input false false []) [] refl cautious-Agrees

-- A realizer that does nothing to the directory of the state, in a pipeline with no settler.
abbrev idle : Way Disk
idle r opts disk =
    let answered = realize_local fs r opts disk in
    if resource_id r == "directory/state" then (err "not mine", disk) else answered

idle-AgreesApart : AgreesApart store (local_realizer fs) (with_way (local_realizer fs) idle)
unfolding local_realizer resource_id
idle-AgreesApart r opts disk apart =
    let other : (resource_id r == "directory/state") ≡ false =
      ground (arith, apart, eq_iff (resource_id r) "directory/state") in
    rw other refl

reconcile-elsewhere_example :
    ((reconcile (local_realizer fs) (some fs) encode (input false false taken) []).0 ≢ ok answer)
    × (reconcile (local_realizer fs) (some fs) encode (input false false taken) []
        ≡ reconcile (with_way (local_realizer fs) idle) none encode (input false false taken) [])
unfolding owners_of resource_id
reconcile-elsewhere_example =
    reconcile-elsewhere (local_realizer fs) (with_way (local_realizer fs) idle) (some fs) none
      encode (input false false taken) [] store "github" answer (inr (inl refl)) refl github-files
      idle-AgreesApart

local_realizer-IsQuiet_example :
    ((local_realizer fs).realize store (record { dry_run = true; force = false }) []).1 ≡ []
local_realizer-IsQuiet_example =
    local_realizer-IsQuiet fs (λ path disk. refl) store (record { dry_run = true; force = false })
      [] refl
