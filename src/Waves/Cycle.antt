-- ===== src/Waves/Cycle.antt =====
-- pkg/citypes/waves.go: what a reported cycle means.
use forge_ci.Common.{
  String, ℕ, zero, suc, ◌<◌, ◌≡◌, ◌≢◌, refl, true, not, ◌&&◌, List, [], ◌∷◌, Result, ok, err, ◌==◌,
  eq_iff, ==_refl, ap, err_inj, >>=-eq-err, sym, ◌∙◌, subst, inl, inr, arith, member, member-set_of,
  set_of, length, All, All-member, All-at, Bool-cases,
}
use forge_ci.Common.Sort.{sort_strings, member-sort_strings, sort_strings-ne-nil}
use forge_ci.Waves.Ends.{waves_ends}
use forge_ci.Waves.{
  Needs, WavesError, cycle, out_of_fuel, ready, needs_at, waits_on, any_edge, next_wave, without,
  waves_loop, waves,
}
use forge_ci.Waves.Step.{member-next_wave, member-without, loop_round}

-- The name needs another one of the names.
abbrev pub Waits : Needs → List String → String → Type 0
Waits needs among name =
    (need : String) × (member need (needs_at needs name) ≡ true)
    × (need ≢ name)
    × (member need among ≡ true)

-- Names of the input, each of which waits on another of them.
pub record IsCycle (names : List String) (needs : Needs) (stuck : List String) : Type 0 where
  pub some_name : stuck ≢ []
  pub given : All (λ a. member a names ≡ true) stuck
  pub waiting : All (Waits needs stuck) stuck

cycle_inj : {a b : List String} → cycle a ≡ cycle b → a ≡ b
cycle_inj h = cc

waits_on-true :
    (name : String) (among rest : List String)
    → waits_on name among rest ≡ true
    → (need : String) × (member need rest ≡ true) × (need ≢ name) × (member need among ≡ true)
unfolding waits_on
waits_on-true name among [] h = cc
waits_on-true name among (x ∷ rest) h = elim (Bool-cases (not (x == name) && member x among)) [
  | inl e ↦ (x, ground (arith, ==_refl x), ground (arith, eq_iff x name), ground arith)
  | inr e ↦
      let (need, m, d, k) = waits_on-true name among rest (ground arith) in
      (need, ground (arith, m), d, k)
]

-- A round that lets nobody go: every pending name waits on a pending one.
stuck-Waits :
    (names : List String) (needs : Needs) (pending : List String)
    → ((a : String) → member a pending ≡ true → member a names ≡ true)
    → next_wave names needs pending ≡ []
    → (a : String) → member a pending ≡ true
    → Waits needs pending a
unfolding ready
stuck-Waits names needs pending sub e a m =
    waits_on-true a pending (needs_at needs a)
      (ground (arith, member-next_wave names needs pending a, sub a m, ap (member a) e))

sorted-IsCycle :
    (names : List String) (needs : Needs) (p : String) (ps : List String)
    → ((a : String) → member a (p ∷ ps) ≡ true → member a names ≡ true)
    → next_wave names needs (p ∷ ps) ≡ []
    → IsCycle names needs (sort_strings (p ∷ ps))
sorted-IsCycle names needs p ps sub e = record {
  some_name = sort_strings-ne-nil p ps;
  given =
      All-member _ (sort_strings (p ∷ ps))
        (λ a m. sub a (sym (member-sort_strings a (p ∷ ps)) ∙ m));
  waiting = All-member _ (sort_strings (p ∷ ps)) (λ a m.
      let (need, n, d, k) =
        stuck-Waits names needs (p ∷ ps) sub e a (sym (member-sort_strings a (p ∷ ps)) ∙ m) in
      (need, n, d, member-sort_strings need (p ∷ ps) ∙ k));
}

waves_loop-IsCycle :
    (fuel : ℕ) (names : List String) (needs : Needs) (pending stuck : List String)
    → ((a : String) → member a pending ≡ true → member a names ≡ true)
    → waves_loop fuel names needs pending ≡ err (cycle stuck)
    → IsCycle names needs stuck
unfolding waves_loop
waves_loop-IsCycle fuel names needs [] stuck sub h = cc
waves_loop-IsCycle zero names needs (p ∷ ps) stuck sub h = cc
waves_loop-IsCycle (suc fuel) names needs (p ∷ ps) stuck sub h =
    elim (loop_round fuel names needs p ps) [
      | inl (e, r) ↦
          subst (IsCycle names needs) (cycle_inj (err_inj (sym r ∙ h)))
            (sorted-IsCycle names needs p ps sub e)
      | inr (w, rest, e, r) ↦
          waves_loop-IsCycle fuel names needs (without (w ∷ rest) (p ∷ ps)) stuck
            (λ a m. sub a (ground (arith, member-without (w ∷ rest) (p ∷ ps) a)))
            (>>=-eq-err _ (λ later. (w ∷ rest) ∷ later) (sym r ∙ h))
    ]

-- A cycle that `Waves` reports is one: the names that it lists are given names, there is at least
-- one, and each of them needs another of them.
pub waves-IsCycle :
    (names : List String) (needs : Needs) (stuck : List String)
    → waves names needs ≡ err (cycle stuck)
    → IsCycle names needs stuck
unfolding waves
waves-IsCycle names needs stuck h = elim (Bool-cases (any_edge names needs)) [
  | inl e ↦
      waves_loop-IsCycle (length (set_of names)) names needs (set_of names) stuck
        (λ a m. sym (member-set_of a names) ∙ m) (ground arith)
  | inr e ↦ ground arith
]

-- A rank that falls along every need that lies within the names.
abbrev pub IsRanked : List String → Needs → (String → ℕ) → Type 0
IsRanked names needs rank =
    All
      (λ a.
        All (λ need. need ≢ a → member need names ≡ true → rank need < rank a) (needs_at needs a))
      names

IsCycle-unranked :
    (names : List String) (needs : Needs) (rank : String → ℕ) (stuck : List String)
    → IsRanked names needs rank
    → IsCycle names needs stuck
    → (bound : ℕ) (a : String) → member a stuck ≡ true
    → ¬ (rank a < bound)
IsCycle-unranked names needs rank stuck ranked c zero a m h = omega arith
IsCycle-unranked names needs rank stuck ranked c (suc bound) a m h =
    let (need, n, d, k) = All-at _ stuck c.waiting a m in
    let given : (b : String) → member b stuck ≡ true → member b names ≡ true =
      All-at _ stuck c.given in
    IsCycle-unranked names needs rank stuck ranked c bound need k (
      omega (
        arith,
        All-at _ (needs_at needs a) (All-at _ names ranked a (given a m)) need n d (given need k),
      ))

IsCycle-head :
    (names : List String) (needs : Needs) (stuck : List String)
    → IsCycle names needs stuck
    → (a : String) × (member a stuck ≡ true)
IsCycle-head names needs [] c = absurd (c.some_name refl)
IsCycle-head names needs (x ∷ xs) c = (x, ground (arith, ==_refl x))

-- An acyclic needs graph is always ordered: when some rank falls along every need between two of
-- the names, `Waves` answers with waves.
pub waves_ranked :
    (names : List String) (needs : Needs) (rank : String → ℕ)
    → IsRanked names needs rank
    → (ws : List (List String)) × (waves names needs ≡ ok ws)
waves_ranked names needs rank ranked = answer (waves names needs) refl
  where
    answer :
        (r : Result WavesError (List (List String)))
        → waves names needs ≡ r
        → (ws : List (List String)) × (waves names needs ≡ ok ws)
    answer (ok ws) e = (ws, e)
    answer (err out_of_fuel) e = absurd (waves_ends names needs e)
    answer (err (cycle stuck)) e =
        let c = waves-IsCycle names needs stuck e in
        let (a, m) = IsCycle-head names needs stuck c in
        absurd (IsCycle-unranked names needs rank stuck ranked c (suc (rank a)) a m (omega arith))
