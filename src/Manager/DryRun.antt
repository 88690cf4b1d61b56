-- ===== src/Manager/DryRun.antt =====
-- internal/controller/managercontroller: what a dry run leaves of the world.
use forge_ci.Common.{
  String, ◌≡◌, refl, ◌∙◌, Bool, true, false, List, [], ◌∷◌, Option, none, some, Result, ok, err,
  ◌==◌, Bool-cases, inl, inr,
}
use forge_ci.Types.{Resource, Ownership, ReconcileInput, text_at}
use forge_ci.Adapters.{Fs}
use forge_ci.Manager.{
  Action, Options, Realizer, Settle, ManagerError, Gathered, nothing_yet, refused, unless, realizes,
  options_of, handle, gather, settle_with, settle_all, record_state, finish, finished, reconcile,
}
use forge_ci.Manager.Local.{
  kind_directory, kind_file, make_directory, make_file, unless_there, realize_local, local_realizer,
  realize_dry, dry_run_realizer,
}

-- Under a dry run the realizer leaves the world as it is.
abbrev pub IsQuiet : {W : Type 0} → Realizer W → Type 0
IsQuiet {W = W} realizer =
    (r : Resource) (opts : Options) (w : W)
    → opts.dry_run ≡ true
    → (realizer.realize r opts w).1 ≡ w

-- Asking whether a path exists leaves the world as it is.
abbrev pub OnlyLooks : {W : Type 0} → Fs W → Type 0
OnlyLooks {W = W} fs = (path : String) (w : W) → (fs.exists path w).1 ≡ w

settle_with_quiet :
    {W : Type 0} (settle : Option (Settle W)) (dry_run : Bool) (touched : List String)
    (words : String) (g : Gathered) (w : W)
    → dry_run ≡ true
    → (settle_with settle dry_run touched words g w).1 ≡ w
unfolding settle_with
settle_with_quiet none dry_run touched words g w dry = refl
settle_with_quiet (some settle) true touched words g w dry = refl
settle_with_quiet (some settle) false touched words g w dry = cc

unless_quiet :
    {W : Type 0} (stop : Option ManagerError) (w : W) (rest : Result ManagerError Gathered × W)
    → rest.1 ≡ w
    → (unless stop w rest).1 ≡ w
unfolding unless
unless_quiet none w rest e = e
unless_quiet (some x) w rest e = refl

module _ {W : Type 0} (realizer : Realizer W) (fs : Option (Fs W))
    (encode : (manager kind : String) → List Ownership → List String → String) where
  handle_quiet :
      (input : ReconcileInput)
      → IsQuiet realizer
      → input.dry_run ≡ true
      → (r : Resource) (g : Gathered) (w : W) → (handle realizer fs encode input r g w).1 ≡ w
  unfolding handle
  handle_quiet input quiet dry r g w = elim (Bool-cases (realizes input r)) [
    | inl on ↦ rw on (quiet r (options_of input) w dry)
    | inr off ↦ rw off refl
  ]

  gather_quiet :
      (input : ReconcileInput)
      → IsQuiet realizer
      → input.dry_run ≡ true
      → (rs : List Resource) (g : Gathered) (w : W) → (gather realizer fs encode input rs g w).1 ≡ w
  unfolding gather
  gather_quiet input quiet dry [] g w = refl
  gather_quiet input quiet dry (r ∷ rs) g w =
      unless_quiet (refused input r) w _
        (gather_quiet input quiet dry rs _ _ ∙ handle_quiet input quiet dry r g w)

  record_state_quiet :
      (input : ReconcileInput) (owned : List Ownership) (actions : List String) (w : W)
      → input.dry_run ≡ true
      → (record_state realizer fs encode input owned actions w).1 ≡ w
  unfolding record_state
  record_state_quiet input owned actions w dry =
      elim (Bool-cases (text_at "statePath" input.spec == "")) [
        | inl on ↦ rw on refl
        | inr off ↦ rw (off, dry) refl
      ]

  finish_quiet :
      (input : ReconcileInput) (g : Gathered) (w : W)
      → input.dry_run ≡ true
      → (finish realizer fs encode input g w).1 ≡ w
  unfolding finish settle_all
  finish_quiet input g w dry =
      record_state_quiet input _ _ _ dry
      ∙ settle_with_quiet realizer.settle input.dry_run g.touched _ g w dry

  finished_quiet :
      (input : ReconcileInput) (step : Result ManagerError Gathered × W)
      → input.dry_run ≡ true
      → (finished realizer fs encode input step).1 ≡ step.1
  unfolding finished
  finished_quiet input (ok g, w) dry = finish_quiet input g w dry
  finished_quiet input (err e, w) dry = refl

  -- A dry run changes nothing: `Reconcile` with its dry run flag leaves the world as it was, with
  -- every realizer that leaves it alone under a dry run, whatever is asked for, whether it answers
  -- or fails: it settles nothing and writes no record of its own.
  pub reconcile_quiet :
      (input : ReconcileInput) (w : W)
      → IsQuiet realizer
      → input.dry_run ≡ true
      → (reconcile realizer fs encode input w).1 ≡ w
  unfolding reconcile
  reconcile_quiet input w quiet dry = elim (Bool-cases (input.manager == "")) [
    | inl unnamed ↦ rw unnamed refl
    | inr filled ↦ rw filled (
        finished_quiet input (gather realizer fs encode input input.resources nothing_yet w) dry
        ∙ gather_quiet input quiet dry input.resources nothing_yet w)
  ]

-- The dry-run realizer touches nothing at all.
pub dry_run_realizer-IsQuiet : {W : Type 0} → IsQuiet (dry_run_realizer {W = W})
unfolding dry_run_realizer realize_dry
dry_run_realizer-IsQuiet r opts w dry = refl

unless_there_quiet :
    {W : Type 0} (fs : Fs W) (words : String) (there : Result String Bool) (w : W)
    (make : Result String Action × W)
    → make.1 ≡ w
    → (unless_there fs words there w make).1 ≡ w
unfolding unless_there
unless_there_quiet fs words (ok true) w make e = refl
unless_there_quiet fs words (ok false) w make e = e
unless_there_quiet fs words (err message) w make e = refl

-- The local realizer makes no directory and no file under a dry run: over a file system whose
-- `Exists` changes nothing, it leaves the world as it was for every resource.
pub local_realizer-IsQuiet : {W : Type 0} (fs : Fs W) → OnlyLooks fs → IsQuiet (local_realizer fs)
unfolding local_realizer realize_local make_directory make_file
local_realizer-IsQuiet fs looks r opts w dry = elim (Bool-cases (r.kind == kind_directory)) [
  | inl directory ↦ rw (directory, dry) (unless_there_quiet fs _ _ _ _ refl ∙ looks r.name w)
  | inr other ↦ elim (Bool-cases (r.kind == kind_file)) [
    | inl file ↦ rw (other, file, dry) (unless_there_quiet fs _ _ _ _ refl ∙ looks r.name w)
    | inr unknown ↦ rw (other, unknown) refl
  ]
]
