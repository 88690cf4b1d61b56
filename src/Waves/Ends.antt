-- ===== src/Waves/Ends.antt =====
-- pkg/citypes/waves.go: the loop of `Waves` ends.
use forge_ci.Common.{
  String, ℕ, zero, suc, ◌≤◌, ◌≢◌, List, [], ◌∷◌, Result, ok, err, ◌>>=◌, inl, inr, arith, ==_refl,
  set_of, length,
}
use forge_ci.Waves.{Needs, WavesError, out_of_fuel, without, waves_loop, waves}
use forge_ci.Waves.Step.{length-without, loop_round, wave_pending}

bind-ne-out_of_fuel :
    (m : Result WavesError (List (List String)))
    (f : List (List String) → Result WavesError (List (List String)))
    → m ≢ err out_of_fuel
    → ((l : List (List String)) → f l ≢ err out_of_fuel)
    → (m >>= f) ≢ err out_of_fuel
bind-ne-out_of_fuel (ok a) f hm hf = hf a
bind-ne-out_of_fuel (err e) f hm hf = λ h. hm (cc)

-- As much fuel as there are pending names is enough.
waves_loop_ends :
    (fuel : ℕ) (names : List String) (needs : Needs) (pending : List String)
    → length pending ≤ fuel
    → waves_loop fuel names needs pending ≢ err out_of_fuel
waves_loop_ends fuel names needs [] h = unfold waves_loop in cc
waves_loop_ends zero names needs (p ∷ ps) h = absurd (omega arith)
waves_loop_ends (suc fuel) names needs (p ∷ ps) h = elim (loop_round fuel names needs p ps) [
  | inl (e, r) ↦ rw r cc
  | inr (w, ws, e, r) ↦ rw r (
      bind-ne-out_of_fuel _ _
        (waves_loop_ends fuel names needs (without (w ∷ ws) (p ∷ ps)) (
          omega (
            arith,
            length-without (w ∷ ws) (p ∷ ps) w (ground (arith, ==_refl w))
                (wave_pending names needs (p ∷ ps) w ws e),
          )))
        (λ l. cc))
]

-- `Waves` ends for every list of names and every needs graph: it answers with waves or reports a
-- cycle, so as many rounds as there are different names are always enough for its loop.
pub waves_ends : (names : List String) (needs : Needs) → waves names needs ≢ err out_of_fuel
unfolding waves
waves_ends names needs =
    ground (arith, waves_loop_ends (length (set_of names)) names needs (set_of names))
