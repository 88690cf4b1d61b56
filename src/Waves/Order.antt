-- ===== src/Waves/Order.antt =====
-- pkg/citypes/waves.go: nothing runs before what it needs.
use forge_ci.Common.{
  String, ℕ, zero, suc, ◌≡◌, ◌≢◌, true, false, List, [], ◌∷◌, ◌++◌, ok, >>=-eq-ok, ok_inj, sym, ◌∙◌,
  subst, ◌==◌, eq_of_==, inl, inr, arith, eq_iff, ==_refl, member, member-append, member-set_of,
  set_of, length, All, All-member, Bool-cases,
}
use mathlib.Core.Bool.{false≢true}
use forge_ci.Waves.{
  Needs, needs_at, waits_on, ready, any_edge, any_edge_from, next_wave, without, waves_loop,
  singletons, waves,
}
use forge_ci.Waves.Step.{member-next_wave, member-without, loop_round}

-- Every need of the name on another of the names stands in `done`.
abbrev pub NeedsDone : Needs → List String → List String → String → Type 0
NeedsDone needs names done name =
    (need : String)
    → member need (needs_at needs name) ≡ true
    → need ≢ name
    → member need names ≡ true
    → member need done ≡ true

-- Each wave needs only what stands in the waves before it, or in `done`.
abbrev pub Follows : Needs → List String → List String → List (List String) → Type 0
Follows needs names done [] = Unit
Follows needs names done (wave ∷ later) =
    All (NeedsDone needs names done) wave × Follows needs names (wave ++ done) later

waits_on-false :
    (name need : String) (among rest : List String)
    → waits_on name among rest ≡ false
    → member need rest ≡ true
    → need ≢ name
    → member need among ≡ false
unfolding waits_on
waits_on-false name need among [] h m d = cc
waits_on-false name need among (x ∷ rest) h m d =
    ground (arith, eq_iff x need, eq_iff x name, waits_on-false name need among rest)

-- What is left of the names is pending or done.
abbrev Settled : List String → List String → List String → Type 0
Settled names done pending =
    (a : String) → member a names ≡ true → member a pending ≡ false → member a done ≡ true

wave-NeedsDone :
    (names : List String) (needs : Needs) (pending done : List String)
    → Settled names done pending
    → (a : String) → member a (next_wave names needs pending) ≡ true
    → NeedsDone needs names done a
unfolding ready
wave-NeedsDone names needs pending done inv a m need h d k = inv need k (
    waits_on-false a need pending (needs_at needs a)
      (ground (arith, member-next_wave names needs pending a)) h d)

without-Settled :
    (names wave pending done : List String)
    → Settled names done pending
    → Settled names (wave ++ done) (without wave pending)
without-Settled names wave pending done inv a k h =
    ground (arith, member-without wave pending a, member-append a wave done, inv a k)

waves_loop-Follows :
    (fuel : ℕ) (names : List String) (needs : Needs) (pending done : List String)
    (ws : List (List String))
    → Settled names done pending
    → waves_loop fuel names needs pending ≡ ok ws
    → Follows needs names done ws
unfolding waves_loop
waves_loop-Follows fuel names needs [] done ws inv h =
    subst (Follows needs names done) (ok_inj h) tt
waves_loop-Follows zero names needs (p ∷ ps) done ws inv h = cc
waves_loop-Follows (suc fuel) names needs (p ∷ ps) done ws inv h =
    elim (loop_round fuel names needs p ps) [
      | inl (e, r) ↦ cc
      | inr (w, rest, e, r) ↦
          let (later, looped, same) = >>=-eq-ok _ _ (sym r ∙ h) in
          subst (Follows needs names done) {x = (w ∷ rest) ∷ later} (ok_inj same) (
            All-member _ (w ∷ rest)
                (λ a m. wave-NeedsDone names needs (p ∷ ps) done inv a (rw e m)),
            waves_loop-Follows fuel names needs (without (w ∷ rest) (p ∷ ps)) ((w ∷ rest) ++ done)
                later (without-Settled names (w ∷ rest) (p ∷ ps) done inv) looped,
          )
    ]

any_edge_from-false :
    (names : List String) (needs : Needs) (rest : List String) (a : String)
    → any_edge_from names needs rest ≡ false
    → member a rest ≡ true
    → waits_on a names (needs_at needs a) ≡ false
unfolding any_edge_from
any_edge_from-false names needs [] a h m = cc
any_edge_from-false names needs (x ∷ rest) a h m = elim (Bool-cases (x == a)) [
  | inl e ↦ rw (← eq_of_== e) (ground arith)
  | inr e ↦ ground (arith, any_edge_from-false names needs rest a)
]

singletons-Follows :
    (names : List String) (needs : Needs) (rest done : List String)
    → ((a : String) → member a rest ≡ true → NeedsDone needs names [] a)
    → Follows needs names done (singletons rest)
unfolding singletons
singletons-Follows names needs [] done h = tt
singletons-Follows names needs (x ∷ rest) done h = (
  ((λ need m d k. absurd (false≢true (h x (ground (arith, ==_refl x)) need m d k))), tt),
  singletons-Follows names needs rest ((x ∷ []) ++ done) (λ a m. h a (ground (arith, m))),
)

-- When `Waves` answers with waves, each name stands behind everything that it needs: a need of a
-- name on another of the given names lies in an earlier wave.
pub waves-Follows :
    (names : List String) (needs : Needs) (ws : List (List String))
    → waves names needs ≡ ok ws
    → Follows needs names [] ws
unfolding waves any_edge
waves-Follows names needs ws h = elim (Bool-cases (any_edge names needs)) [
  | inl e ↦
      waves_loop-Follows (length (set_of names)) names needs (set_of names) [] ws
        (λ a m n. ground (arith, member-set_of a names)) (ground arith)
  | inr e ↦ subst (Follows needs names []) {x = singletons names} (ground arith) (
      singletons-Follows names needs names [] (λ a m need k d n. ground (
        arith,
        waits_on-false a need names (needs_at needs a) (any_edge_from-false names needs names a e m)
            k d,
      )))
]
