-- ===== src/Reconcile/Resources/Kept.antt =====
-- internal/controller/reconcilecontroller/reconcilecontroller.go: what `reconcileResources` records of
-- who owns what.
use mathlib.Core.Bool.{false≢true}
use forge_ci.Common.{
  String, ◌≡◌, refl, sym, ◌∙◌, subst, Bool, true, false, not, ◌||◌, List, [], ◌∷◌, some, ok, ok_inj,
  ◌==◌, arith, eq_iff, select, if◌then◌else◌,
}
use forge_ci.Common.Sort.{insert_by, sort_by, le_text}
use forge_ci.Types.{ForgeTypes, Resource, Ownership}
use forge_ci.Config.{Pipeline}
use forge_ci.Reconcile.World.{Env, History, state_put}
use forge_ci.Reconcile.World.After.{
  After, After-pure, After-lift, After-ask, After-wrap, After-if, After-bind, After-any,
}
use forge_ci.Reconcile.Index.{EngineIndex}
use forge_ci.Reconcile.State.{
  kind_owned, owned_key, get_json, put_json, decoded, read_ownership, write_ownership,
}
use forge_ci.Reconcile.Resources.{Options, Progress, merge_owned, ask_managers, reconcile_resources}

-- The resource has an owner in the list.
unfoldable pub owns : String → List Ownership → Bool
owns r [] = false
owns r (o ∷ os) = o.resource == r || owns r os

owns-select :
    (r key : String) (os : List Ownership)
    → owns r (select (λ (held : Ownership). not (held.resource == key)) os)
      ≡ (if key == r then false else owns r os)
unfolding owns
owns-select r key [] = ground arith
owns-select r key (o ∷ os) =
    ground (arith, owns-select r key os, eq_iff o.resource key, eq_iff o.resource r, eq_iff key r)

owns-merge_owned :
    (r : String) (os merged : List Ownership)
    → owns r (merge_owned os merged) ≡ (owns r os || owns r merged)
unfolding owns merge_owned
owns-merge_owned r [] merged = refl
owns-merge_owned r (o ∷ os) merged = ground (
  arith,
  owns-select r o.resource merged,
  owns-merge_owned r os
      (o ∷ select (λ (held : Ownership). not (held.resource == o.resource)) merged),
)

owns-insert_by :
    (le : Ownership → Ownership → Bool) (r : String) (o : Ownership) (os : List Ownership)
    → owns r (insert_by le o os) ≡ (o.resource == r || owns r os)
unfolding owns
owns-insert_by le r o [] = refl
owns-insert_by le r o (x ∷ os) = ground (arith, owns-insert_by le r o os)

owns-sort_by :
    (le : Ownership → Ownership → Bool) (r : String) (os : List Ownership)
    → owns r (sort_by le os) ≡ owns r os
unfolding owns
owns-sort_by le r [] = refl
owns-sort_by le r (o ∷ os) =
    ground (arith, owns-insert_by le r o (sort_by le os), owns-sort_by le r os)

-- Every resource with an owner in the first list has one in the second.
abbrev pub Covers : List Ownership → List Ownership → Type 0
Covers before after = (r : String) → owns r before ≡ true → owns r after ≡ true

-- The last call wrote an ownership record that covers what was owned.
pub record KeepsOwned {f : ForgeTypes} (env : Env f) (index : EngineIndex) (owned : List Ownership)
    (h : History f) : Type 0 where
  pub recorded : List Ownership
  pub earlier : History f
  pub last :
      h
      ≡ state_put index.state_uri kind_owned owned_key (env.encode_owned recorded) index.state_spec
        ∷ earlier
  pub kept : Covers owned recorded

Covers-merged :
    (owned answered merged : List Ownership)
    → Covers owned merged
    → Covers owned (merge_owned answered merged)
Covers-merged owned answered merged c r h =
    ground (arith, owns-merge_owned r answered merged, c r h)

module _ {f : ForgeTypes} (env : Env f) (p : Pipeline) (index : EngineIndex) (root : String)
    (bootstrap : Bool) (opts : Options) (owned : List Ownership) where
  ask_managers-Covers :
      (read : List Ownership) (by_manager : List (String × List Resource)) (aliases : List String)
      (so_far : Progress)
      → Covers owned so_far.merged
      → (h : History f)
      → After
          (ask_managers env p index root bootstrap opts read by_manager aliases so_far)
          h
          (λ done h'. Covers owned done.merged)
  unfolding ask_managers
  ask_managers-Covers read by_manager [] so_far c h = After-pure _ c
  ask_managers-Covers read by_manager (alias ∷ aliases) so_far c h =
      After-bind (λ m h'. Unit) _ _ _ (After-any _ _)
        (λ m h1 q.
          After-bind (λ m h'. Unit) _ _ _ (After-any _ _)
            (λ out h2 q.
              ask_managers-Covers read by_manager aliases _
                (Covers-merged owned out.owned so_far.merged c) h2))

  write_ownership-KeepsOwned :
      (merged : List Ownership)
      → Covers owned merged
      → (h : History f)
      → After (write_ownership env index merged) h (λ written h'. KeepsOwned env index owned h')
  unfolding write_ownership put_json
  write_ownership-KeepsOwned merged c h = After-wrap _ _ _ (
      After-ask _ _ _ (λ written e. record {
        recorded = sort_by (λ a b. le_text a.resource b.resource) merged;
        earlier = h;
        last = refl;
        kept = λ r o. owns-sort_by (λ a b. le_text a.resource b.resource) r merged ∙ c r o;
      }))

  read_ownership-Reads :
      (h : History f) (written : String)
      → env.on_state_get h index.state_uri kind_owned owned_key index.state_spec ≡ ok (some written)
      → env.decode_owned written ≡ some owned
      → After (read_ownership env index) h (λ read h'. read ≡ owned)
  unfolding read_ownership get_json decoded
  read_ownership-Reads h written found decode =
      After-bind (λ payload h'. payload ≡ some written) _ _ _
        (After-wrap _ _ _ (After-ask _ _ _ (λ payload e. ok_inj (sym e ∙ found))))
        (λ payload h' same. After-lift _ _ (λ read e. cc))

  merged_first : (read : List Ownership) → read ≡ owned → Covers owned (merge_owned read [])
  merged_first read same r h =
      subst (λ os. owns r (merge_owned os []) ≡ true) (sym same)
        (ground (arith, owns-merge_owned r owned []))

-- No resource falls out of the ownership record: when `reconcileResources` is no dry run and
-- answers, its last call wrote a record in which every resource of the record that it had read
-- still has an owner, whatever the managers answered.
pub reconcile_resources-KeepsOwned :
    {f : ForgeTypes} (env : Env f) (p : Pipeline) (index : EngineIndex) (root : String)
    (bootstrap : Bool) (opts : Options) (h : History f) (written : String) (owned : List Ownership)
    → env.on_state_get h index.state_uri kind_owned owned_key index.state_spec ≡ ok (some written)
    → env.decode_owned written ≡ some owned
    → opts.dry_run ≡ false
    → (answer : List String × Bool × Bool)
    → (reconcile_resources env p index root bootstrap opts h).0 ≡ ok answer
    → KeepsOwned env index owned (reconcile_resources env p index root bootstrap opts h).1
unfolding reconcile_resources
reconcile_resources-KeepsOwned env p index root bootstrap opts h written owned found decode wet =
    (After-bind (λ read h'. read ≡ owned) (λ answer h'. KeepsOwned env index owned h') _ _
      (read_ownership-Reads env p index root bootstrap opts owned h written found decode)
      (λ read h1 same.
        After-bind (λ by_manager h'. Unit) _ _ _ (After-any _ _)
          (λ by_manager h2 q.
            After-bind (λ done h'. Covers owned done.merged) _ _ _
              (ask_managers-Covers env p index root bootstrap opts owned read by_manager _ _
                (merged_first env p index root bootstrap opts owned read same) h2)
              (λ done h3 c.
                After-bind (λ w h'. KeepsOwned env index owned h') _ _ _
                  (After-if _ opts.dry_run _ _ (λ dry. absurd (false≢true (sym wet ∙ dry)))
                    (λ e.
                      write_ownership-KeepsOwned env p index root bootstrap opts owned done.merged c
                        h3))
                  (λ w h4 k. After-pure _ k))))).holds
