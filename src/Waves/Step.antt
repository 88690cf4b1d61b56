-- ===== src/Waves/Step.antt =====
-- pkg/citypes/waves.go: one round of the loop of `Waves`.
use forge_ci.Common.{
  String, ℕ, suc, ◌<◌, ◌≡◌, refl, true, not, ◌&&◌, List, [], ◌∷◌, ok, err, ◌>>=◌, ◌⊎◌, inl, inr,
  arith, ◌==◌, eq_iff, ==_refl, member, member-select, length, length-select-le, Bool-cases,
}
use forge_ci.Common.Sort.{sort_strings}
use forge_ci.Waves.{Needs, cycle, next_wave, without, ready, waves_loop}

pub member-next_wave :
    (names : List String) (needs : Needs) (pending : List String) (a : String)
    → member a (next_wave names needs pending)
      ≡ (member a names && (member a pending && ready needs pending a))
unfolding next_wave
member-next_wave names needs pending a =
    ground (arith, member-select (λ name. member name pending && ready needs pending name) a names)

pub member-without :
    (wave pending : List String) (a : String)
    → member a (without wave pending) ≡ (member a pending && not (member a wave))
unfolding without
member-without wave pending a =
    ground (arith, member-select (λ name. not (member name wave)) a pending)

-- A round that lets a pending name go leaves fewer.
pub length-without :
    (wave pending : List String) (a : String)
    → member a wave ≡ true
    → member a pending ≡ true
    → length (without wave pending) < length pending
unfolding without
length-without wave [] a h k = cc
length-without wave (x ∷ xs) a h k = elim (Bool-cases (x == a)) [
  | inl e ↦ ground (arith, eq_iff x a, length-select-le (λ name. not (member name wave)) xs)
  | inr e ↦ ground (arith, length-without wave xs a)
]

-- What a round does, by the wave that it finds.
pub loop_round :
    (fuel : ℕ) (names : List String) (needs : Needs) (p : String) (ps : List String)
    → ((next_wave names needs (p ∷ ps) ≡ [])
        × (waves_loop (suc fuel) names needs (p ∷ ps) ≡ err (cycle (sort_strings (p ∷ ps)))))
      ⊎ ((w : String) × (ws : List String) × (next_wave names needs (p ∷ ps) ≡ w ∷ ws)
          × (waves_loop (suc fuel) names needs (p ∷ ps) ≡ (
              waves_loop fuel names needs (without (w ∷ ws) (p ∷ ps))
              >>= (λ later. ok ((w ∷ ws) ∷ later)))))
unfolding waves_loop
loop_round fuel names needs p ps = go (next_wave names needs (p ∷ ps)) refl
  where
    go :
        (wave : List String)
        → next_wave names needs (p ∷ ps) ≡ wave
        → ((next_wave names needs (p ∷ ps) ≡ [])
            × (waves_loop (suc fuel) names needs (p ∷ ps) ≡ err (cycle (sort_strings (p ∷ ps)))))
          ⊎ ((w : String) × (ws : List String) × (next_wave names needs (p ∷ ps) ≡ w ∷ ws)
              × (waves_loop (suc fuel) names needs (p ∷ ps) ≡ (
                  waves_loop fuel names needs (without (w ∷ ws) (p ∷ ps))
                  >>= (λ later. ok ((w ∷ ws) ∷ later)))))
    go [] e = inl (e, rw (e, waves_loop))
    go (w ∷ ws) e = inr (w, ws, e, rw (e, waves_loop) (rw e))

-- Every name of a wave was pending and ready.
pub wave_pending :
    (names : List String) (needs : Needs) (pending : List String) (w : String) (ws : List String)
    → next_wave names needs pending ≡ w ∷ ws
    → member w pending ≡ true
wave_pending names needs pending w ws e =
    let h : member w (next_wave names needs pending) ≡ true = rw e (ground (arith, ==_refl w)) in
    ground (arith, member-next_wave names needs pending w)
