-- ===== src/Reconcile/Index/References.antt =====
-- pkg/config/config.go: the targets and the substages that a pipeline without problems refers to.
use forge_ci.Common.{
  Among, String, ℕ, zero, suc, ◌≡◌, refl, sym, ap, ◌∙◌, subst, true, not, List, [], ◌∷◌, Option,
  none, some, ◌==◌, eq_of_==, member, map, Bool-cases, inl, inr, arith,
}
use mathlib.Core.Option.{some_inj}
use forge_ci.Common.Text.{cut}
use forge_ci.Config.{Target, Substage, Stage, has_substage}
use forge_ci.Config.Problems
use forge_ci.Config.Problems.{Problem, add_if}
use forge_ci.Config.Stages.{
  unknown_targets, stage_before, use_problems, uses_problems, substages_uses_problems,
}
use forge_ci.Reconcile.Index.Lookup.{nil-left, nil-right, not-added}

-- A target of the pipeline has the alias.
abbrev pub IsTarget : List Target → String → Type 0
IsTarget targets alias = (t : Target) × Among t targets × (t.alias ≡ alias)

-- The text is the name of a stage and that of one of its substages, with a slash between them.
abbrev pub IsUsed : List Stage → String → Type 0
IsUsed stages text =
    (stage : Stage) × (sub : Substage) × Among stage stages
    × Among sub stage.substages
    × (cut b'/' text ≡ some (stage.name, sub.name))

member-IsTarget :
    (targets : List Target) (alias : String)
    → member alias (map (λ (t : Target). t.alias) targets) ≡ true
    → IsTarget targets alias
member-IsTarget [] alias h = cc
member-IsTarget (t ∷ ts) alias h = elim (Bool-cases (t.alias == alias)) [
  | inl same ↦ (t, inl refl, eq_of_== same)
  | inr other ↦
      let (found, among, e) = member-IsTarget ts alias (ground (arith, other, h)) in
      (found, inr among, e)
]

pub unknown_targets-IsTarget :
    (targets : List Target) (stage sub : String) (named : List String)
    → unknown_targets (map (λ (t : Target). t.alias) targets) stage sub named ≡ []
    → (alias : String) → Among alias named
    → IsTarget targets alias
unfolding unknown_targets
unknown_targets-IsTarget targets stage sub [] h alias among = absurd among
unknown_targets-IsTarget targets stage sub (x ∷ xs) h alias (inl e) =
    subst (IsTarget targets) e (member-IsTarget targets x (not-added _ _ (nil-left _ _ h)))
unknown_targets-IsTarget targets stage sub (x ∷ xs) h alias (inr later) =
    unknown_targets-IsTarget targets stage sub xs (nil-right _ _ h) alias later

has_substage-Among :
    (name : String) (subs : List Substage)
    → has_substage name subs ≡ true
    → (sub : Substage) × Among sub subs × (sub.name ≡ name)
unfolding has_substage
has_substage-Among name [] h = cc
has_substage-Among name (sub ∷ subs) h = elim (Bool-cases (sub.name == name)) [
  | inl same ↦ (sub, inl refl, eq_of_== same)
  | inr other ↦
      let (found, among, e) = has_substage-Among name subs (ground (arith, other, h)) in
      (found, inr among, e)
]

stage_before-Among :
    (at : ℕ) (name : String) (stages : List Stage) (before : Stage)
    → stage_before at name stages ≡ some before
    → Among before stages × (before.name ≡ name)
unfolding stage_before
stage_before-Among at name [] before h = cc
stage_before-Among zero name (s ∷ ss) before h = cc
stage_before-Among (suc at) name (s ∷ ss) before h = elim (Bool-cases (s.name == name)) [
  | inl same ↦
      let found : ◌≡◌ {A = Option Stage} (some s) (some before) = ground (arith, same, h) in
      let here = some_inj.0 found in
      (inl here, ap (λ (x : Stage). x.name) (sym here) ∙ eq_of_== same)
  | inr other ↦
      let (among, e) = stage_before-Among at name ss before (ground (arith, other, h)) in
      (inr among, e)
]

module _ (stages : List Stage) (at : ℕ) (stage : Stage) where
  found-IsUsed :
      (sub uses stage_name sub_name : String) (found : Option Stage)
      → cut b'/' uses ≡ some (stage_name, sub_name)
      → stage_before at stage_name stages ≡ found
      → ◌≡◌ {A = List Problem}
          (elim found [
            | none ↦ Problems.uses_no_earlier_stage stage.name sub stage_name ∷ []
            | some before ↦
                add_if
                  (not (has_substage sub_name before.substages))
                  (Problems.uses_no_substage stage.name sub uses)
          ])
          []
      → IsUsed stages uses
  found-IsUsed sub uses stage_name sub_name none parts at_stage h = cc
  found-IsUsed sub uses stage_name sub_name (some before) parts at_stage h =
      let (among, named) = stage_before-Among at stage_name stages before at_stage in
      let (used, in_stage, same) = has_substage-Among sub_name before.substages (not-added _ _ h) in
      (
        before,
        used,
        among,
        in_stage,
        parts
            ∙ ap some (ap (λ n. (n, sub_name)) (sym named) ∙ ap (λ n. (before.name, n)) (sym same)),
      )

  parts-IsUsed :
      (sub uses : String) (parts : Option (String × String))
      → cut b'/' uses ≡ parts
      → ◌≡◌ {A = List Problem}
          (elim parts [
            | none ↦ Problems.uses_malformed stage.name sub uses ∷ []
            | some (stage_name, sub_name) ↦ elim (stage_before at stage_name stages) [
              | none ↦ Problems.uses_no_earlier_stage stage.name sub stage_name ∷ []
              | some before ↦
                  add_if
                    (not (has_substage sub_name before.substages))
                    (Problems.uses_no_substage stage.name sub uses)
            ]
          ])
          []
      → IsUsed stages uses
  parts-IsUsed sub uses none is_cut h = cc
  parts-IsUsed sub uses (some (stage_name, sub_name)) is_cut h =
      found-IsUsed sub uses stage_name sub_name (stage_before at stage_name stages) is_cut refl h

  uses_problems-IsUsed :
      (sub : String) (named : List String)
      → uses_problems stages at stage sub named ≡ []
      → (uses : String) → Among uses named
      → IsUsed stages uses
  unfolding uses_problems use_problems
  uses_problems-IsUsed sub [] h uses among = absurd among
  uses_problems-IsUsed sub (x ∷ xs) h uses (inl e) =
      subst (IsUsed stages) e (parts-IsUsed sub x (cut b'/' x) refl (nil-left _ _ h))
  uses_problems-IsUsed sub (x ∷ xs) h uses (inr later) =
      uses_problems-IsUsed sub xs (nil-right _ _ h) uses later

  pub substages_uses_problems-IsUsed :
      (subs : List Substage)
      → substages_uses_problems stages at stage subs ≡ []
      → (sub : Substage) → Among sub subs
      → (uses : String) → Among uses sub.uses
      → IsUsed stages uses
  unfolding substages_uses_problems
  substages_uses_problems-IsUsed [] h sub among uses used = absurd among
  substages_uses_problems-IsUsed (x ∷ xs) h sub (inl e) uses used =
      uses_problems-IsUsed x.name x.uses (nil-left _ _ h) uses
        (subst (λ (s : Substage). Among uses s.uses) (sym e) used)
  substages_uses_problems-IsUsed (x ∷ xs) h sub (inr later) uses used =
      substages_uses_problems-IsUsed xs (nil-right _ _ h) sub later uses used
