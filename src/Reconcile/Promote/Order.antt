-- ===== src/Reconcile/Promote/Order.antt =====
-- internal/controller/reconcilecontroller/reconcilecontroller.go: the waves of a stage's substages.
use mathlib.Core.List.{Perm, flatten, append-nil}
use mathlib.Core.List.Perm
use forge_ci.Common.{
  Among, String, ◌≡◌, ◌≢◌, refl, sym, ap, ◌∙◌, subst, true, List, [], ◌∷◌, Result, ok, err, ok_inj,
  All, map, member,
}
use forge_ci.Config.{Substage, Stage, substage_names, needs_from, substage_needs}
use forge_ci.Waves.{Needs, WavesError, cycle, out_of_fuel, waves}
use forge_ci.Waves.Order.{Follows, NeedsDone, waves-Follows}
use forge_ci.Waves.Keeps.{waves-perm}
use forge_ci.Waves.Declared.{
  Entry, Earlier, IsDistinct, Among-map, entered, all_entered, names_of-map, Follows-IsBehind,
}
use forge_ci.Reconcile.Promote.{ordered, waves_for, substage_waves}

-- The groups hold exactly the names, and each name stands behind what it needs.
record IsOrder (names : List String) (needs : Needs) (groups : List (List String)) : Type 0 where
  all_once : Perm (flatten groups) names
  in_order : Follows needs names [] groups

free-NeedsDone : (names todo : List String) → All (NeedsDone [] names []) todo
free-NeedsDone names [] = tt
free-NeedsDone names (x ∷ xs) = ((λ need m d k. m), free-NeedsDone names xs)

flatten-one : (names : List String) → Perm (flatten (names ∷ [])) names
unfolding flatten
flatten-one names = rw append-nil (Perm.refl names)

ordered-ok :
    (stage : Stage) (r : Result WavesError (List (List String))) (groups : List (List String))
    → ordered stage r ≡ ok groups
    → r ≡ ok groups
unfolding ordered
ordered-ok stage (ok groups) other h = cc
ordered-ok stage (err (cycle among)) other h = cc
ordered-ok stage (err out_of_fuel) other h = cc

waves_for-IsOrder :
    (stage : Stage) (needs : Needs) (groups : List (List String))
    → waves_for stage needs ≡ ok groups
    → IsOrder (substage_names stage) needs groups
unfolding waves_for
waves_for-IsOrder stage [] groups h = subst (IsOrder (substage_names stage) []) (ok_inj h) (record {
  all_once = flatten-one (substage_names stage);
  in_order = (free-NeedsDone (substage_names stage) (substage_names stage), tt);
})
waves_for-IsOrder stage (need ∷ needs) groups h =
    let answered = ordered-ok stage (waves (substage_names stage) (need ∷ needs)) groups h in
    record {
      all_once = waves-perm (substage_names stage) (need ∷ needs) groups answered;
      in_order = waves-Follows (substage_names stage) (need ∷ needs) groups answered;
    }

-- What a substage declares.
abbrev pub substage_entry : Substage → Entry
substage_entry sub = (sub.name, sub.needs)

needs_from-entered :
    (needs : Needs) (subs : List Substage)
    → needs_from needs subs ≡ all_entered needs (map substage_entry subs)
unfolding needs_from
needs_from-entered needs [] = refl
needs_from-entered needs (sub ∷ subs) =
    needs_from-entered (elim sub.needs [ [] ↦ needs | n ∷ ns ↦ (sub.name, n ∷ ns) ∷ needs ]) subs
    ∙ ap (λ start. all_entered start (map substage_entry subs)) (entry sub.needs)
  where
    entry :
        (ns : List String)
        → ◌≡◌ {A = Needs}
            (elim ns [ [] ↦ needs | n ∷ ns ↦ (sub.name, n ∷ ns) ∷ needs ])
            (entered sub.name ns needs)
    entry [] = refl
    entry (n ∷ ns) = refl

-- The order in which a stage calls its substages, where no two of them have one name: when
-- `substageWaves` answers with waves, they hold exactly the stage's substages, each once; and where a
-- substage declares to need another of them, the wave with the substage stands behind the one with
-- what it needs.
pub substage_waves-IsOrder :
    (stage : Stage) (groups : List (List String)) (sub : Substage) (need : String)
    → substage_waves stage ≡ ok groups
    → IsDistinct (map (λ (s : Substage). s.name) stage.substages)
    → Among sub stage.substages
    → member need sub.needs ≡ true
    → need ≢ sub.name
    → member need (map (λ (s : Substage). s.name) stage.substages) ≡ true
    → Perm (flatten groups) (map (λ (s : Substage). s.name) stage.substages)
      × Earlier need sub.name [] groups
unfolding substage_waves substage_needs substage_names
substage_waves-IsOrder stage groups sub need h distinct here needed apart among =
    let entries = map substage_entry stage.substages in
    let order = waves_for-IsOrder stage (substage_needs stage) groups h in
    let follows =
      subst (λ needs. Follows needs (substage_names stage) [] groups)
        (needs_from-entered [] stage.substages) order.in_order in
    (
      order.all_once,
      Follows-IsBehind entries (substage_names stage) groups
          (subst IsDistinct (sym (names_of-map substage_entry stage.substages)) distinct) follows
          sub.name need sub.needs (Among-map substage_entry sub stage.substages here) needed apart
          among,
    )
