-- ===== src/Manager/Owned.antt =====
-- internal/controller/managercontroller/managercontroller.go: who may own what, and what is answered.
use forge_ci.Common.{
  Among, String, ◌≡◌, ◌≢◌, refl, sym, ap, ◌∙◌, subst, Bool, true, false, List, [], ◌∷◌, ◌++◌,
  Option, none, some, Result, ok, err, ok_inj, ◌==◌, map, lookup, arith, eq_iff, Bool-cases, inl,
  inr,
}
use mathlib.Core.List.{append_assoc, append-nil}
use forge_ci.Common.Sort.{sort_by, le_text}
use forge_ci.Types.{Resource, resource_id, Ownership, ReconcileInput, ReconcileOutput}
use forge_ci.Adapters.{Fs}
use forge_ci.Manager.{
  Action, Options, options_of, Realizer, Settle, ManagerError, Failure, Gathered, nothing_yet,
  take_up, owners_of, refused, unless, claimed, realizes, handle, gather, settled, settle_with,
  settle_all, sorted_owned, answer_of, finish, finished, reconcile,
}

-- What the manager owns once it holds the resources, in their order.
abbrev pub holding : String → List Resource → List Ownership
holding manager rs =
    map (λ (r : Resource). record { resource = resource_id r; manager = manager }) rs

refused-elsewhere :
    (input : ReconcileInput) (r : Resource) (recorded : String)
    → lookup (resource_id r) (owners_of input.owned) ≡ some recorded
    → recorded ≢ input.manager
    → refused input r ≢ none
unfolding refused
refused-elsewhere input r recorded found other =
    ground (arith, found, eq_iff recorded input.manager)

unless-refused :
    {W : Type 0} (stop : Option ManagerError) (w : W) (rest : Result ManagerError Gathered × W)
    → stop ≢ none
    → (g : Gathered) → (unless stop w rest).0 ≢ ok g
unfolding unless
unless-refused none w rest bad g = absurd (bad refl)
unless-refused (some e) w rest bad g = cc

unless-fails :
    {W : Type 0} (stop : Option ManagerError) (w : W) (rest : Result ManagerError Gathered × W)
    (g : Gathered)
    → rest.0 ≢ ok g
    → (unless stop w rest).0 ≢ ok g
unfolding unless
unless-fails none w rest g bad = bad
unless-fails (some e) w rest g bad = cc

unless-ok :
    {W : Type 0} (stop : Option ManagerError) (w : W) (rest : Result ManagerError Gathered × W)
    (g : Gathered)
    → (unless stop w rest).0 ≡ ok g
    → rest.0 ≡ ok g
unfolding unless
unless-ok none w rest g h = h
unless-ok (some e) w rest g h = cc

settled-owned :
    (g : Gathered) (answer : Result String (Action × Bool)) → (settled g answer).0.owned ≡ g.owned
unfolding settled
settled-owned g (ok (action, published)) = refl
settled-owned g (err words) = refl

settle_with-owned :
    {W : Type 0} (settle : Option (Settle W)) (dry_run : Bool) (touched : List String)
    (words : String) (g : Gathered) (w : W)
    → (settle_with settle dry_run touched words g w).0.0.owned ≡ g.owned
unfolding settle_with
settle_with-owned none dry_run touched words g w = refl
settle_with-owned (some settle) true touched words g w = refl
settle_with-owned (some settle) false [] words g w = refl
settle_with-owned (some settle) false (t ∷ ts) words g w = settled-owned g _

answer_of-ok :
    (out : ReconcileOutput) (es : List Failure) (answer : ReconcileOutput)
    → answer_of out es ≡ ok answer
    → out ≡ answer
unfolding answer_of
answer_of-ok out [] answer h = ok_inj h
answer_of-ok out (e ∷ es) answer h = cc

take_up-owned :
    (r : Resource) (answer : Result String Action) (g : Gathered)
    → (take_up r answer g).owned ≡ g.owned
unfolding take_up
take_up-owned r (ok action) g = refl
take_up-owned r (err words) g = refl

module _ {W : Type 0} (realizer : Realizer W) (fs : Option (Fs W))
    (encode : (manager kind : String) → List Ownership → List String → String) where
  gather-refused :
      (input : ReconcileInput) (r : Resource) (rs : List Resource) (g : Gathered) (w : W)
      → Among r rs
      → refused input r ≢ none
      → (g' : Gathered) → (gather realizer fs encode input rs g w).0 ≢ ok g'
  unfolding gather
  gather-refused input r [] g w among bad g' = absurd among
  gather-refused input r (x ∷ rs) g w (inl e) bad g' =
      unless-refused (refused input x) w _ (subst (λ y. refused input y ≢ none) (sym e) bad) g'
  gather-refused input r (x ∷ rs) g w (inr later) bad g' =
      unless-fails (refused input x) w _ g' (gather-refused input r rs _ _ later bad g')

  handle-owned :
      (input : ReconcileInput) (r : Resource) (g : Gathered) (w : W)
      → (handle realizer fs encode input r g w).0.owned
        ≡ g.owned ++ record { resource = resource_id r; manager = input.manager } ∷ []
  unfolding handle claimed
  handle-owned input r g w = elim (Bool-cases (realizes input r)) [
    | inl on ↦ rw on (take_up-owned r _ _)
    | inr off ↦ rw off refl
  ]

  gather-owned :
      (input : ReconcileInput) (rs : List Resource) (g : Gathered) (w : W) (g' : Gathered)
      → (gather realizer fs encode input rs g w).0 ≡ ok g'
      → g'.owned ≡ g.owned ++ holding input.manager rs
  unfolding gather
  gather-owned input [] g w g' h =
      ap (λ (x : Gathered). x.owned) (sym (ok_inj h)) ∙ sym (append-nil g.owned)
  gather-owned input (r ∷ rs) g w g' h =
      gather-owned input rs _ _ g' (unless-ok (refused input r) w _ g' h)
      ∙ (ap (λ os. os ++ holding input.manager rs) (handle-owned input r g w)
          ∙ append_assoc g.owned _ (holding input.manager rs))

  finish-owned :
      (input : ReconcileInput) (g : Gathered) (w : W) (out : ReconcileOutput)
      → (finish realizer fs encode input g w).0 ≡ ok out
      → out.owned ≡ sort_by (λ a b. le_text a.resource b.resource) g.owned
  unfolding finish settle_all sorted_owned
  finish-owned input g w out h =
      ap (λ (o : ReconcileOutput). o.owned) (sym (answer_of-ok _ _ out h))
      ∙ ap (sort_by (λ a b. le_text a.resource b.resource))
          (settle_with-owned realizer.settle input.dry_run g.touched _ g w)

  finished-ok :
      (input : ReconcileInput) (step : Result ManagerError Gathered × W) (out : ReconcileOutput)
      → (finished realizer fs encode input step).0 ≡ ok out
      → (g : Gathered) × (step.0 ≡ ok g) × ((finish realizer fs encode input g step.1).0 ≡ ok out)
  unfolding finished
  finished-ok input (ok g, w) out h = (g, refl, h)
  finished-ok input (err e, w) out h = cc

  reconcile-unnamed :
      (input : ReconcileInput) (w : W) (out : ReconcileOutput)
      → (input.manager == "") ≡ true
      → (reconcile realizer fs encode input w).0 ≢ ok out
  unfolding reconcile
  reconcile-unnamed input w out unnamed = rw unnamed cc

  reconcile-filled :
      (input : ReconcileInput) (w : W) (out : ReconcileOutput)
      → (input.manager == "") ≡ false
      → (reconcile realizer fs encode input w).0 ≡ ok out
      → (finished realizer fs encode input
          (gather realizer fs encode input input.resources nothing_yet w)).0
        ≡ ok out
  unfolding reconcile
  reconcile-filled input w out filled h =
      let same : reconcile realizer fs encode input w
          ≡ finished realizer fs encode input
              (gather realizer fs encode input input.resources nothing_yet w) =
        rw filled refl in
      ap (λ (answer : Result ManagerError ReconcileOutput × W). answer.0) (sym same) ∙ h

  -- What a manager answers to own is what it was asked to hold: when `Reconcile` answers, its
  -- ownership list has one entry for each resource of the input, under the input's manager, sorted
  -- by resource, those that only a bootstrap writes included.
  pub reconcile-owned :
      (input : ReconcileInput) (w : W) (out : ReconcileOutput)
      → (reconcile realizer fs encode input w).0 ≡ ok out
      → out.owned
        ≡ sort_by (λ a b. le_text a.resource b.resource) (holding input.manager input.resources)
  unfolding reconcile
  reconcile-owned input w out h = elim (Bool-cases (input.manager == "")) [
    | inl unnamed ↦ absurd (reconcile-unnamed input w out unnamed h)
    | inr filled ↦
        let (g, gathered, done) =
          finished-ok input (gather realizer fs encode input input.resources nothing_yet w) out
            (reconcile-filled input w out filled h) in
        finish-owned input g _ out done
        ∙ ap (sort_by (λ a b. le_text a.resource b.resource))
            (gather-owned input input.resources nothing_yet w g gathered)
  ]

  reconcile-fails :
      (input : ReconcileInput) (w : W) (r : Resource)
      → Among r input.resources
      → refused input r ≢ none
      → (out : ReconcileOutput) → (reconcile realizer fs encode input w).0 ≢ ok out
  unfolding reconcile
  reconcile-fails input w r among bad out h = elim (Bool-cases (input.manager == "")) [
    | inl unnamed ↦ reconcile-unnamed input w out unnamed h
    | inr filled ↦
        let (g, gathered, done) =
          finished-ok input (gather realizer fs encode input input.resources nothing_yet w) out
            (reconcile-filled input w out filled h) in
        gather-refused input r input.resources nothing_yet w among bad g gathered
  ]

-- The realizers do the same with every resource of another name.
abbrev pub AgreesApart : {W : Type 0} → Resource → Realizer W → Realizer W → Type 0
AgreesApart {W = W} r one other =
    (x : Resource) (opts : Options) (w : W)
    → resource_id x ≢ resource_id r
    → one.realize x opts w ≡ other.realize x opts w

refused-none-apart :
    (input : ReconcileInput) (r x : Resource) (recorded : String)
    → lookup (resource_id r) (owners_of input.owned) ≡ some recorded
    → recorded ≢ input.manager
    → refused input x ≡ none
    → resource_id x ≢ resource_id r
refused-none-apart input r x recorded found other free same =
    refused-elsewhere input x recorded (ap (λ id. lookup id (owners_of input.owned)) same ∙ found)
      other free

module _ {W : Type 0} (one other : Realizer W) (fs gs : Option (Fs W))
    (encode : (manager kind : String) → List Ownership → List String → String) where
  handle-apart :
      (input : ReconcileInput) (r x : Resource) (g : Gathered) (w : W)
      → AgreesApart r one other
      → resource_id x ≢ resource_id r
      → handle one fs encode input x g w ≡ handle other gs encode input x g w
  unfolding handle
  handle-apart input r x g w agrees apart = elim (Bool-cases (realizes input x)) [
    | inr off ↦ rw off refl
    | inl on ↦ rw on (
        ap (λ (step : Result String Action × W). (take_up x step.0 (claimed input x g), step.1))
          (agrees x (options_of input) w apart))
  ]

  unless-apart :
      (stop : Option ManagerError) (w : W) (rest more : Result ManagerError Gathered × W)
      → (stop ≡ none → rest ≡ more)
      → unless stop w rest ≡ unless stop w more
  unfolding unless
  unless-apart none w rest more same = same refl
  unless-apart (some e) w rest more same = refl

  gather-apart :
      (input : ReconcileInput) (r : Resource) (rs : List Resource) (g : Gathered) (w : W)
      → AgreesApart r one other
      → ((x : Resource) → refused input x ≡ none → resource_id x ≢ resource_id r)
      → gather one fs encode input rs g w ≡ gather other gs encode input rs g w
  unfolding gather
  gather-apart input r [] g w agrees free = refl
  gather-apart input r (x ∷ rs) g w agrees free =
      unless-apart (refused input x) w _ _ (λ none_stops.
        ap (λ (step : Gathered × W). gather one fs encode input rs step.0 step.1)
          (handle-apart input r x g w agrees (free x none_stops))
        ∙ gather-apart input r rs _ _ agrees free)

  finished-fails :
      (input : ReconcileInput) (step : Result ManagerError Gathered × W)
      → ((g : Gathered) → step.0 ≢ ok g)
      → finished one fs encode input step ≡ finished other gs encode input step
  unfolding finished
  finished-fails input (ok g, w) fails = absurd (fails g refl)
  finished-fails input (err e, w) fails = refl

  -- A manager never takes what another holds: if the recorded owner of some resource of the input is
  -- another manager, `Reconcile` answers with an error, whatever the other resources are; and what the
  -- realizer would do with that resource, the settler and the file of the record have no part in the
  -- answer or in the world that is left.
  pub reconcile-elsewhere :
      (input : ReconcileInput) (w : W) (r : Resource) (recorded : String) (out : ReconcileOutput)
      → Among r input.resources
      → lookup (resource_id r) (owners_of input.owned) ≡ some recorded
      → recorded ≢ input.manager
      → AgreesApart r one other
      → ((reconcile one fs encode input w).0 ≢ ok out)
        × (reconcile one fs encode input w ≡ reconcile other gs encode input w)
  unfolding reconcile
  reconcile-elsewhere input w r recorded out among found elsewhere agrees =
      let bad = refused-elsewhere input r recorded found elsewhere in
      let same =
        gather-apart input r input.resources nothing_yet w agrees
          (λ x. refused-none-apart input r x recorded found elsewhere) in
      let left : finished one fs encode input
            (gather one fs encode input input.resources nothing_yet w)
          ≡ finished other gs encode input
              (gather other gs encode input input.resources nothing_yet w) =
        finished-fails input (gather one fs encode input input.resources nothing_yet w)
          (gather-refused one fs encode input r input.resources nothing_yet w among bad)
        ∙ ap (finished other gs encode input) same in
      (
        reconcile-fails one fs encode input w r among bad out,
        elim (Bool-cases (input.manager == "")) [
          | inl unnamed ↦ rw unnamed refl
          | inr filled ↦ rw filled left
        ],
      )
