-- ===== src/Waves/Keeps.antt =====
-- pkg/citypes/waves.go: the waves hold the given names, and nothing is lost or added.
use mathlib.Core.List.{Perm, flatten, perm_middle}
use mathlib.Core.List.Perm
use forge_ci.Common.{
  String, ℕ, zero, suc, ◌≡◌, refl, Bool, true, false, ◌&&◌, ◌||◌, List, [], ◌∷◌, ◌++◌, ok,
  >>=-eq-ok, ok_inj, sym, ◌∙◌, subst, inl, inr, arith, member, member-set_of, set_of, select,
  length, All, All-member, ap, Bool-cases,
}
use forge_ci.Waves.{Needs, ready, any_edge, next_wave, without, waves_loop, singletons, waves}
use forge_ci.Waves.Step.{member-next_wave, member-without, loop_round}

-- The given names that are still pending.
abbrev left : List String → List String → List String
left names pending = select (λ a. member a pending) names

-- A test that is one of two tests, and never both.
abbrev IsSplit : (p q r : String → Bool) → String → Type 0
IsSplit p q r a = (p a ≡ (q a || r a)) × ((q a && r a) ≡ false)

select_split-perm :
    (p q r : String → Bool) (xs : List String)
    → All (IsSplit p q r) xs
    → Perm (select q xs ++ select r xs) (select p xs)
select_split-perm p q r [] h = Perm.refl []
select_split-perm p q r (x ∷ xs) h =
    let rest = select_split-perm p q r xs h.1 in
    let kept = Perm.cons x rest in
    ground
      (arith, h.0.0, h.0.1, rest, kept, Perm.trans (perm_middle (select q xs) (select r xs)) kept)

-- A round splits the names left into its wave and those left for the later rounds.
round-perm :
    (names : List String) (needs : Needs) (pending : List String)
    → Perm
        (next_wave names needs pending
          ++ left names (without (next_wave names needs pending) pending))
        (left names pending)
round-perm names needs pending =
    let wave = next_wave names needs pending in
    unfold next_wave in
    select_split-perm (λ a. member a pending) (λ a. member a pending && ready needs pending a)
      (λ a. member a (without wave pending)) names
      (All-member _ names (λ a m. (
        ground (arith, member-without wave pending a, member-next_wave names needs pending a),
        ground (arith, member-without wave pending a, member-next_wave names needs pending a),
      )))

left_none : (names : List String) → left names [] ≡ []
left_none [] = refl
left_none (x ∷ xs) = left_none xs

left-All :
    (names xs : List String) → All (λ a. member a names ≡ true) xs → left xs (set_of names) ≡ xs
left-All names [] h = refl
left-All names (x ∷ xs) h = ground (arith, h.0, member-set_of x names, left-All names xs h.1)

waves_loop-perm :
    (fuel : ℕ) (names : List String) (needs : Needs) (pending : List String)
    (ws : List (List String))
    → waves_loop fuel names needs pending ≡ ok ws
    → Perm (flatten ws) (left names pending)
unfolding waves_loop flatten
waves_loop-perm fuel names needs [] ws h =
    subst (λ l. Perm (flatten l) (left names [])) (ok_inj h) (rw left_none (Perm.refl []))
waves_loop-perm zero names needs (p ∷ ps) ws h = cc
waves_loop-perm (suc fuel) names needs (p ∷ ps) ws h = elim (loop_round fuel names needs p ps) [
  | inl (e, r) ↦ cc
  | inr (w, rest, e, r) ↦
      let (later, looped, same) = >>=-eq-ok _ _ (sym r ∙ h) in
      let tail = waves_loop-perm fuel names needs (without (w ∷ rest) (p ∷ ps)) later looped in
      subst (λ l. Perm (flatten l) (left names (p ∷ ps))) {x = (w ∷ rest) ∷ later} (ok_inj same)
        (Perm.trans (Perm.append_left (w ∷ rest) tail) (
          subst (λ l. Perm (l ++ left names (without l (p ∷ ps))) (left names (p ∷ ps))) e
            (round-perm names needs (p ∷ ps))))
]

flatten-singletons : (names : List String) → flatten (singletons names) ≡ names
unfolding singletons flatten
flatten-singletons [] = refl
flatten-singletons (x ∷ xs) = ap (λ l. x ∷ l) (flatten-singletons xs)

-- When `Waves` answers with waves, they hold exactly the given names, each as often as it was given.
pub waves-perm :
    (names : List String) (needs : Needs) (ws : List (List String))
    → waves names needs ≡ ok ws
    → Perm (flatten ws) names
unfolding waves
waves-perm names needs ws h = elim (Bool-cases (any_edge names needs)) [
  | inl e ↦
      subst (Perm (flatten ws)) (left-All names names (All-member _ names (λ a m. m)))
        (waves_loop-perm (length (set_of names)) names needs (set_of names) ws (ground arith))
  | inr e ↦
      subst (λ l. Perm (flatten l) names) {x = singletons names} (ground arith)
        (rw flatten-singletons (Perm.refl names))
]
