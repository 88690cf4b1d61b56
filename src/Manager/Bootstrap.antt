-- ===== src/Manager/Bootstrap.antt =====
-- internal/controller/managercontroller/managercontroller.go: what only a bootstrap writes.
use forge_ci.Common.{
  String, ◌≡◌, refl, ap, ◌∙◌, true, false, List, [], ◌∷◌, Option, Result, ok, err, ◌==◌, Bool-cases,
  inl, inr, arith,
}
use forge_ci.Types.{Resource, Ownership, ReconcileInput}
use forge_ci.Adapters.{Fs}
use forge_ci.Manager.{
  Action, Options, Realizer, ManagerError, Gathered, nothing_yet, refused, unless, realizes,
  options_of, claimed, take_up, handle, gather, settle_all, record_state, finish, finished,
  reconcile,
}

-- The way a realizer has with a resource.
abbrev pub Way : Type 0 → Type 0
Way W = Resource → Options → W → Result String Action × W

abbrev pub with_way : {W : Type 0} → Realizer W → Way W → Realizer W
with_way realizer way = record realizer { realize = way }

-- The two ways are one on every resource that is not left to a bootstrap.
abbrev pub AgreesOutsideBootstrap : {W : Type 0} → Way W → Way W → Type 0
AgreesOutsideBootstrap {W = W} one other =
    (r : Resource) (opts : Options) (w : W)
    → r.bootstrap_only ≡ false
    → one r opts w ≡ other r opts w

realizes-late :
    (input : ReconcileInput) (r : Resource)
    → input.bootstrap ≡ false
    → realizes input r ≡ true
    → r.bootstrap_only ≡ false
unfolding realizes
realizes-late input r late on = ground arith

module _ {W : Type 0} (realizer : Realizer W) (fs : Option (Fs W))
    (encode : (manager kind : String) → List Ownership → List String → String)
    (one other : Way W) where
  abbrev first : Realizer W
  first = with_way realizer one

  abbrev second : Realizer W
  second = with_way realizer other

  handle_same :
      (input : ReconcileInput)
      → input.bootstrap ≡ false
      → AgreesOutsideBootstrap one other
      → (r : Resource) (g : Gathered) (w : W)
      → handle first fs encode input r g w ≡ handle second fs encode input r g w
  unfolding handle
  handle_same input late same r g w = elim (Bool-cases (realizes input r)) [
    | inr off ↦ rw off refl
    | inl on ↦ rw on (
        ap (λ (step : Result String Action × W). (take_up r step.0 (claimed input r g), step.1))
          (same r (options_of input) w (realizes-late input r late on)))
  ]

  gather_same :
      (input : ReconcileInput)
      → input.bootstrap ≡ false
      → AgreesOutsideBootstrap one other
      → (rs : List Resource) (g : Gathered) (w : W)
      → gather first fs encode input rs g w ≡ gather second fs encode input rs g w
  unfolding gather
  gather_same input late same [] g w = refl
  gather_same input late same (r ∷ rs) g w =
      ap (λ rest. unless (refused input r) w rest)
        (ap (λ (step : Gathered × W). gather first fs encode input rs step.0 step.1)
            (handle_same input late same r g w)
          ∙ gather_same input late same rs _ _)

  finished_same :
      (input : ReconcileInput) (step : Result ManagerError Gathered × W)
      → finished first fs encode input step ≡ finished second fs encode input step
  unfolding finished finish settle_all record_state
  finished_same input (ok g, w) = refl
  finished_same input (err e, w) = refl

  -- Outside a bootstrap, what only a bootstrap writes is out of the realizer's hands: two realizers
  -- that differ only in what they do with such resources give the same answer and leave the same
  -- world, for every input that is no bootstrap.
  pub reconcile_same :
      (input : ReconcileInput) (w : W)
      → input.bootstrap ≡ false
      → AgreesOutsideBootstrap one other
      → reconcile (with_way realizer one) fs encode input w
        ≡ reconcile (with_way realizer other) fs encode input w
  unfolding reconcile
  reconcile_same input w late same = elim (Bool-cases (input.manager == "")) [
    | inl unnamed ↦ rw unnamed refl
    | inr filled ↦ rw filled (
        ap (finished first fs encode input)
          (gather_same input late same input.resources nothing_yet w)
        ∙ finished_same input (gather second fs encode input input.resources nothing_yet w))
  ]
