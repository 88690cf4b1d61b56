-- ===== src/Store/Kinds.antt =====
-- internal/controller/statecontroller/statecontroller.go: `kinds` and `kindsFor`.
use forge_ci.Common.{
  String, ℕ, ◌≡◌, ◌⊎◌, eq_of_==, refl, Bool, true, false, [], ◌∷◌, Option, none, some, Result, ok,
  err, lookup, has_key, if◌then◌else◌, arith, inl, inr, Bool-cases, All, ok_inj, subst, every, ◌||◌,
  ap, sym, ◌∙◌, nat_eq, ◌==◌,
}
use Prim.Native.Char.{code}
use mathlib.Core.Bool.{false≢true}
use mathlib.Core.Option.{some_inj}
use forge_ci.Common.Digits.{codes}
use forge_ci.Common.Paths.{slash}
use forge_ci.Common.Paths.Pieces.{IsWhole, occurs}
use forge_ci.Common.Paths.Steps.{IsPlain}
use forge_ci.Config.Problems.{is_kebab, is_lower_or_digit}
use forge_ci.Types.{Spec, Value, Values, list, text, nil, cons}
use forge_ci.Store.{
  StoreError, Kinds, built_in_kinds, with_kind, add_kinds, kinds_from, kinds_for, dir_of, not_kebab,
  unknown_kind,
}

-- Each kind has a directory whose name is in kebab case, and a built-in kind has its own.
abbrev pub IsKebab : String × String → Type 0
IsKebab (kind, dir) = is_kebab dir ≡ true

abbrev pub KeepsBuiltIn : Kinds → Type 0
KeepsBuiltIn known =
    (kind dir : String) → lookup kind built_in_kinds ≡ some dir → lookup kind known ≡ some dir

abbrev pub IsStore : Kinds → Type 0
IsStore known = All IsKebab known × KeepsBuiltIn known

lookup-has_key :
    (kind dir : String) (known : Kinds) → lookup kind known ≡ some dir → has_key kind known ≡ true
lookup-has_key kind dir [] h = cc
lookup-has_key kind dir ((k, d) ∷ known) h = ground (arith, lookup-has_key kind dir known)

with_kind_cases :
    (name : String) (known : Kinds)
    → (with_kind name known ≡ known)
      ⊎ ((has_key name known ≡ false) × (with_kind name known ≡ (name, name) ∷ known))
with_kind_cases name known = ground arith

added-KeepsBuiltIn :
    (name : String) (known : Kinds)
    → has_key name known ≡ false
    → KeepsBuiltIn known
    → KeepsBuiltIn ((name, name) ∷ known)
added-KeepsBuiltIn name known new keeps kind dir h =
    let kept = keeps kind dir h in
    let there = lookup-has_key kind dir known kept in
    elim (Bool-cases (name == kind)) [
      | inl e ↦ absurd (false≢true (sym new ∙ ap (λ k. has_key k known) (eq_of_== e) ∙ there))
      | inr e ↦ ground (arith, e, kept)
    ]

with_kind-IsStore :
    (name : String) (known : Kinds)
    → is_kebab name ≡ true
    → IsStore known
    → IsStore (with_kind name known)
with_kind-IsStore name known kebab (all, keeps) = elim (with_kind_cases name known) [
  | inl e ↦ subst IsStore (sym e) (all, keeps)
  | inr (new, e) ↦ subst IsStore (sym e) ((kebab, all), added-KeepsBuiltIn name known new keeps)
]

kebab_next :
    (name : String) (rest : Result StoreError Kinds) {merged : Kinds}
    → is_kebab name ≡ true
    → (if is_kebab name then rest else err (not_kebab (text name))) ≡ ok merged
    → rest ≡ ok merged
kebab_next name rest kebab e = ground arith

refused :
    (name : String) (rest : Result StoreError Kinds) {merged : Kinds}
    → is_kebab name ≡ false
    → (if is_kebab name then rest else err (not_kebab (text name))) ≡ ok merged
    → ⊥
refused name rest other e = ground arith

add_kinds-IsStore :
    (vs : Values) (known : Kinds) {merged : Kinds}
    → IsStore known
    → add_kinds vs known ≡ ok merged
    → IsStore merged
unfolding add_kinds
add_kinds-IsStore nil known h e = subst IsStore (ok_inj e) h
add_kinds-IsStore (cons (text name) vs) known h e = elim (Bool-cases (is_kebab name)) [
  | inl kebab ↦
      add_kinds-IsStore vs (with_kind name known) (with_kind-IsStore name known kebab h)
        (kebab_next name (add_kinds vs (with_kind name known)) kebab e)
  | inr other ↦ absurd (refused name (add_kinds vs (with_kind name known)) other e)
]
add_kinds-IsStore (cons v vs) known h e = cc

built_in-IsStore : IsStore built_in_kinds
unfolding is_kebab
built_in-IsStore = ((refl, (refl, (refl, (refl, tt)))), λ kind dir h. h)

kinds_from-IsStore : (v : Option Value) {known : Kinds} → kinds_from v ≡ ok known → IsStore known
unfolding kinds_from
kinds_from-IsStore none e = subst IsStore (ok_inj e) built_in-IsStore
kinds_from-IsStore (some (list vs)) e = add_kinds-IsStore vs built_in_kinds built_in-IsStore e
kinds_from-IsStore (some v) e = cc

-- Whatever kinds a spec adds, each kind has a directory whose name is in kebab case, and a built-in
-- kind keeps the directory that it has in every store.
pub kinds_for-IsStore : (spec : Spec) {known : Kinds} → kinds_for spec ≡ ok known → IsStore known
unfolding kinds_for
kinds_for-IsStore spec e = kinds_from-IsStore (lookup "kinds" spec) e

occurs-every :
    (p : ℕ → Bool) (k : ℕ) (s : String)
    → p k ≡ false
    → every p (codes s) ≡ true
    → occurs k s ≡ false
occurs-every p k String.[] out h = refl
occurs-every p k (String.◌∷◌ c s) out h = elim (Bool-cases (nat_eq (code c) k)) [
  | inl e ↦
      let here : code c ≡ k = ground arith in
      let passes : p (code c) ≡ true = ground arith in
      absurd (false≢true (sym out ∙ ap p (sym here) ∙ passes))
  | inr e ↦ let rest = occurs-every p k s out (ground arith) in ground (arith, e, rest)
]

abbrev pub is_kebab_char : ℕ → Bool
is_kebab_char c = is_lower_or_digit c || nat_eq c b'-'

pub kebab-free :
    (k : ℕ) (dir : String) → is_kebab_char k ≡ false → is_kebab dir ≡ true → occurs k dir ≡ false
unfolding is_kebab
kebab-free k String.[] out h = refl
kebab-free k (String.◌∷◌ c s) out h = elim (Bool-cases (nat_eq (code c) k)) [
  | inl e ↦
      let here : code c ≡ k = ground arith in
      let passes : is_kebab_char (code c) ≡ true = ground (arith, h) in
      absurd (false≢true (sym out ∙ ap is_kebab_char (sym here) ∙ passes))
  | inr e ↦ let rest = occurs-every is_kebab_char k s out (ground arith) in ground (arith, e, rest)
]

-- A name in kebab case has no slash.
pub kebab-IsWhole : (dir : String) → is_kebab dir ≡ true → IsWhole slash dir
kebab-IsWhole dir h = kebab-free slash dir refl h

other_name :
    (dir name : String) → is_kebab name ≡ false → is_kebab dir ≡ true → (dir == name) ≡ false
other_name dir name out h = elim (Bool-cases (dir == name)) [
  | inl e ↦ absurd (false≢true (sym out ∙ ap is_kebab (sym (eq_of_== e)) ∙ h))
  | inr e ↦ e
]

pub kebab-IsPlain : (dir : String) → is_kebab dir ≡ true → IsPlain dir
unfolding is_kebab
kebab-IsPlain dir h =
    ground (arith, other_name dir "" refl h, other_name dir "." refl h, other_name dir ".." refl h)

dir_found :
    (kind : String) (found : Option String) {dir : String}
    → elim found [ none ↦ err (unknown_kind kind) | some d ↦ ok d ] ≡ ok dir
    → found ≡ some dir
dir_found kind none e = cc
dir_found kind (some d) e = ap some (ok_inj e)

All-lookup :
    (kind dir : String) (known : Kinds)
    → All IsKebab known
    → lookup kind known ≡ some dir
    → is_kebab dir ≡ true
All-lookup kind dir [] all h = cc
All-lookup kind dir ((k, d) ∷ known) all h = elim (Bool-cases (k == kind)) [
  | inl e ↦
      let same : some d ≡ some dir = ground (arith, e, h) in
      subst (λ x. is_kebab x ≡ true) (some_inj.0 same) all.0
  | inr e ↦ All-lookup kind dir known all.1 (ground (arith, e, h))
]

-- The directory of a kind.
pub dir_of-kebab :
    (kind dir : String) (known : Kinds)
    → IsStore known
    → dir_of kind known ≡ ok dir
    → is_kebab dir ≡ true
unfolding dir_of
dir_of-kebab kind dir known h e =
    All-lookup kind dir known h.0 (dir_found kind (lookup kind known) e)
