-- ===== src/Waves.antt =====
-- pkg/citypes/waves.go: the ordered groups in which the repos of a target run. The loop takes fuel,
-- and the number of pending names is enough: `Waves/Ends.antt`.
pub mod Step
pub mod Ends
pub mod Order
pub mod Declared
pub mod Cycle
pub mod Keeps
pub mod Target
mod Tests
use forge_ci.Common.{
  String, ℕ, zero, suc, Bool, true, false, not, ◌&&◌, ◌||◌, List, [], ◌∷◌, map, Result, ok, err,
  ◌>>=◌, ◌==◌, member, set_of, select, lookup_or, has_key, length, if◌then◌else◌,
}
use forge_ci.Common.Sort.{sort_strings}

-- The `needs` map: a repo or substage, and the names that it waits on.
abbrev pub Needs : Type 0
Needs = List (String × List String)

abbrev pub needs_at : Needs → String → List String
needs_at needs name = lookup_or [] name needs

-- `ErrCycle` names what is left pending, sorted. The code has no `out_of_fuel`.
pub data WavesError : Type 0 where
  cycle : List String → WavesError
  out_of_fuel : WavesError

-- A need on another name that is in the set.
unfoldable pub waits_on : String → List String → List String → Bool
waits_on name among [] = false
waits_on name among (need ∷ rest) =
    not (need == name) && member need among || waits_on name among rest

-- `ready`: nothing that the name needs is still pending.
unfoldable pub ready : Needs → List String → String → Bool
ready needs pending name = not (waits_on name pending (needs_at needs name))

-- `anyEdge`, over the names left to look at.
unfoldable pub any_edge_from : List String → Needs → List String → Bool
any_edge_from named needs [] = false
any_edge_from named needs (name ∷ rest) =
    waits_on name named (needs_at needs name) || any_edge_from named needs rest

unfoldable pub any_edge : List String → Needs → Bool
any_edge names needs = any_edge_from names needs names

-- The names that run in this round, in declared order.
unfoldable pub next_wave : List String → Needs → List String → List String
next_wave names needs pending =
    select (λ name. member name pending && ready needs pending name) names

-- `delete(pending, name)` for each name of the wave.
unfoldable pub without : List String → List String → List String
without wave pending = select (λ name. not (member name wave)) pending

-- `for len(pending) > 0`.
unfoldable pub waves_loop :
    ℕ → List String → Needs → List String → Result WavesError (List (List String))
waves_loop fuel names needs [] = ok []
waves_loop zero names needs (p ∷ ps) = err out_of_fuel
waves_loop (suc fuel) names needs (p ∷ ps) =
    let wave = next_wave names needs (p ∷ ps) in
    let rest = waves_loop fuel names needs (without wave (p ∷ ps)) in
    elim wave [
      | [] ↦ err (cycle (sort_strings (p ∷ ps)))
      | w ∷ ws ↦ rest >>= (λ later. ok ((w ∷ ws) ∷ later))
    ]

unfoldable pub singletons : List String → List (List String)
singletons names = map (λ name. name ∷ []) names

unfoldable pub waves : List String → Needs → Result WavesError (List (List String))
waves names needs =
    if any_edge names needs
    then waves_loop (length (set_of names)) names needs (set_of names)
    else ok (singletons names)
