-- ===== src/Manager.antt =====
-- internal/controller/managercontroller/managercontroller.go: how a manager brings about the resources
-- that it is asked for. The world that it changes is a state `W`, which the realizer, the settler and
-- the file system take and hand back; `encoding/json` is the argument `encode`.
pub mod Local
pub mod Owned
pub mod DryRun
pub mod Bootstrap
mod Tests
use forge_ci.Common.{
  String, Bool, true, false, not, ◌&&◌, ◌||◌, List, [], ◌∷◌, ◌++◌, Option, none, some, Result, ok,
  err, ◌==◌, map, lookup, if◌then◌else◌, ◌++ₛ◌,
}
use forge_ci.Common.Sort.{sort_by, le_text}
use forge_ci.Adapters.{Fs}
use forge_ci.Config.{default_commit_prefix}
use forge_ci.Types.{Resource, resource_id, Ownership, ReconcileInput, ReconcileOutput, text_at}

-- `Action`: `Kept` and `Did` are its two ways to be made.
pub record Action : Type 0 where
  pub words : String
  pub changed : Bool

abbrev pub kept : String → Action
kept words = record { words = words; changed = false }

abbrev pub did : String → Action
did words = record { words = words; changed = true }

pub record Options : Type 0 where
  pub dry_run : Bool
  pub force : Bool

-- `Options.would`.
unfoldable pub would : Options → String → String
would opts words = if opts.dry_run then "would " ++ₛ words else words

abbrev pub Settle : Type 0 → Type 0
Settle W = List String → String → W → Result String (Action × Bool) × W

-- `Realizer`, and `Settler` for one that is also that.
pub record Realizer (W : Type 0) : Type 0 where
  pub kind : String
  pub realize : Resource → Options → W → Result String Action × W
  pub settle : Option (Settle W)

pub data Failure : Type 0 where
  realizing : (id message : String) → Failure
  settling : (message : String) → Failure
  recording : (message : String) → Failure

pub data ManagerError : Type 0 where
  no_alias : ManagerError
  unnamed : Resource → ManagerError
  owned_elsewhere : (id recorded declared : String) → ManagerError
  joined : List Failure → ManagerError

-- `SelfReconcileMessage`.
unfoldable pub self_reconcile_message : String → String
self_reconcile_message prefix =
    (if prefix == "" then default_commit_prefix else prefix) ++ₛ " self reconcile"

-- `Realizes`.
unfoldable pub realizes : ReconcileInput → Resource → Bool
realizes input r = input.bootstrap || not r.bootstrap_only

-- `owners`: a later record of a resource wins.
unfoldable pub owners_of : List Ownership → List (String × String)
owners_of [] = []
owners_of (o ∷ os) = owners_of os ++ (o.resource, o.manager) ∷ []

-- What the loop over the resources gathers.
pub record Gathered : Type 0 where
  pub owned : List Ownership
  pub actions : List String
  pub touched : List String
  pub failures : List Failure

abbrev pub nothing_yet : Gathered
nothing_yet = record { owned = []; actions = []; touched = []; failures = [] }

-- The answer of the realizer, taken up.
unfoldable pub take_up : Resource → Result String Action → Gathered → Gathered
take_up r (err message) g = record g {
  failures = g.failures ++ realizing (resource_id r) message ∷ [];
}
take_up r (ok action) g = record g {
  actions = g.actions ++ action.words ∷ [];
  touched = if action.changed then g.touched ++ r.name ∷ [] else g.touched;
}

-- The two tests that end the loop with an error.
unfoldable pub refused : ReconcileInput → Resource → Option ManagerError
refused input r =
    if r.kind == "" || r.name == ""
    then some (unnamed r)
    else elim (lookup (resource_id r) (owners_of input.owned)) [
      | none ↦ none
      | some recorded ↦
          if recorded == input.manager
          then none
          else some (owned_elsewhere (resource_id r) recorded input.manager)
    ]

-- A refusal ends the loop where it stands.
unfoldable pub unless :
    {W : Type 0}
    → Option ManagerError
    → W
    → Result ManagerError Gathered × W
    → Result ManagerError Gathered × W
unless none w rest = rest
unless (some e) w rest = (err e, w)

abbrev pub options_of : ReconcileInput → Options
options_of input = record { dry_run = input.dry_run; force = input.force }

-- The resource is claimed before it is realized.
unfoldable pub claimed : ReconcileInput → Resource → Gathered → Gathered
claimed input r g = record g {
  owned = g.owned ++ record { resource = resource_id r; manager = input.manager } ∷ [];
}

-- The answer of the settler: the failures, the actions, and whether it published.
unfoldable pub settled : Gathered → Result String (Action × Bool) → Gathered × Bool
settled g (err words) = (record g { failures = g.failures ++ settling words ∷ [] }, false)
settled g (ok (action, published)) = (
  record g { actions = if action.words == "" then g.actions else g.actions ++ action.words ∷ [] },
  published,
)

-- The settler, if there is one, no dry run, and something changed.
unfoldable pub settle_with :
    {W : Type 0}
    → Option (Settle W)
    → (dry_run : Bool) → List String
    → String
    → Gathered
    → W
    → (Gathered × Bool) × W
settle_with none dry_run touched words g w = ((g, false), w)
settle_with (some settle) true touched words g w = ((g, false), w)
settle_with (some settle) false [] words g w = ((g, false), w)
settle_with (some settle) false (t ∷ ts) words g w =
    let (answer, w') = settle (t ∷ ts) words w in (settled g answer, w')

-- `have, err := ReadFile(path); err == nil && bytes.Equal(have, payload)`.
unfoldable pub is_same : Result String String → String → Bool
is_same (ok have) payload = have == payload
is_same (err e) payload = false

unfoldable pub write_record : {W : Type 0} → Fs W → String → String → W → List Failure × W
write_record files path payload w =
    let (have, w') = files.read_file path w in
    if is_same have payload
    then ([], w')
    else (let (wrote, w2) = files.write_file path payload w' in
        (elim wrote [ ok done ↦ [] | err words ↦ recording words ∷ [] ], w2))

unfoldable pub sorted_owned : List Ownership → List Ownership
sorted_owned owned = sort_by (λ a b. le_text a.resource b.resource) owned

unfoldable pub answer_of : ReconcileOutput → List Failure → Result ManagerError ReconcileOutput
answer_of out [] = ok out
answer_of out (e ∷ es) = err (joined (e ∷ es))

module _ {W : Type 0} (realizer : Realizer W) (fs : Option (Fs W))
    (encode : (manager kind : String) → List Ownership → List String → String) where
  -- One resource that is not refused.
  unfoldable pub handle : ReconcileInput → Resource → Gathered → W → Gathered × W
  handle input r g w =
      let g' = claimed input r g in
      if realizes input r
      then (let (answer, w') = realizer.realize r (options_of input) w in (take_up r answer g', w'))
      else (
        record g' {
          actions =
              g'.actions
              ++ ("left " ++ₛ resource_id r ++ₛ " alone: only a bootstrap writes it") ∷ [];
        },
        w,
      )

  unfoldable pub gather :
      ReconcileInput → List Resource → Gathered → W → Result ManagerError Gathered × W
  gather input [] g w = (ok g, w)
  gather input (r ∷ rs) g w =
      let (g', w') = handle input r g w in
      let rest = gather input rs g' w' in unless (refused input r) w rest

  unfoldable pub settle_all : ReconcileInput → Gathered → W → (Gathered × Bool) × W
  settle_all input g w =
      settle_with realizer.settle input.dry_run g.touched
        (self_reconcile_message input.commit_prefix) g w

  -- `record`: the failures that it adds.
  unfoldable pub record_state : ReconcileInput → List Ownership → List String → W → List Failure × W
  record_state input owned actions w =
      let path = text_at "statePath" input.spec in
      if path == "" || input.dry_run then ([], w) else elim fs [
        | none ↦ ([], w)
        | some files ↦ write_record files path (encode input.manager realizer.kind owned actions) w
      ]

  -- What follows the loop.
  unfoldable pub finish : ReconcileInput → Gathered → W → Result ManagerError ReconcileOutput × W
  finish input g w =
      let ((g', published), w') = settle_all input g w in
      let owned = sorted_owned g'.owned in
      let (failed, w2) = record_state input owned g'.actions w' in
      (
        answer_of
            (record {
              owned = owned;
              actions = g'.actions;
              changed = elim g.touched [ [] ↦ false | t ∷ ts ↦ true ];
              published = published;
            })
            (g'.failures ++ failed),
        w2,
      )

  unfoldable pub finished :
      ReconcileInput → Result ManagerError Gathered × W → Result ManagerError ReconcileOutput × W
  finished input (ok g, w) = finish input g w
  finished input (err e, w) = (err e, w)

  -- `Controller.Reconcile`.
  unfoldable pub reconcile : ReconcileInput → W → Result ManagerError ReconcileOutput × W
  reconcile input w =
      if input.manager == ""
      then (err no_alias, w)
      else finished input (gather input input.resources nothing_yet w)
