-- ===== src/Waves/Tests.antt =====
-- Runs of `Waves` on small graphs, and the theorems at them.
use mathlib.Core.List.{Perm, flatten}
use forge_ci.Common.{
  false, String, ℕ, ◌≡◌, ◌≢◌, refl, List, [], ◌∷◌, ok, err, arith, ◌==◌, if◌then◌else◌, eq_iff, inl,
}
use forge_ci.Types.{RepoCheckout, RunInput, Target}
use forge_ci.Waves.Target.{
  needs_of, needs_of_from, of_target, waves_in, waves_for_target, waves_for_target-Follows,
}
use forge_ci.Waves.{
  Needs, cycle, out_of_fuel, waits_on, ready, any_edge, any_edge_from, next_wave, without,
  waves_loop, singletons, waves,
}
use forge_ci.Waves.Declared.{Earlier}
use forge_ci.Waves.Ends.{waves_ends}
use forge_ci.Waves.Order.{Follows, waves-Follows}
use forge_ci.Waves.Keeps.{waves-perm}
use forge_ci.Waves.Cycle.{IsCycle, waves-IsCycle, IsRanked, waves_ranked}

program : Unit {0}
unfolding waits_on ready any_edge any_edge_from next_wave without waves_loop singletons waves
program = tt

abbrev names : List String
names = "app" ∷ "lib" ∷ "docs" ∷ "core" ∷ []

abbrev needs : Needs
needs = ("app", "lib" ∷ "core" ∷ []) ∷ ("lib", "core" ∷ "other" ∷ []) ∷ []

abbrev ordered : List (List String)
ordered = ("docs" ∷ "core" ∷ []) ∷ ("lib" ∷ []) ∷ ("app" ∷ []) ∷ []

waves-ordered : waves names needs ≡ ok ordered
unfolding program
waves-ordered = refl

waves_plain : waves names [] ≡ ok (("app" ∷ []) ∷ ("lib" ∷ []) ∷ ("docs" ∷ []) ∷ ("core" ∷ []) ∷ [])
unfolding program
waves_plain = refl

abbrev looped : Needs
looped = ("app", "lib" ∷ []) ∷ ("lib", "app" ∷ []) ∷ []

waves-looped : waves names looped ≡ err (cycle ("app" ∷ "lib" ∷ []))
unfolding program
waves-looped = refl

waves_ends_example : waves names looped ≢ err out_of_fuel
waves_ends_example = waves_ends names looped

waves-Follows_example : Follows needs names [] ordered
waves-Follows_example = waves-Follows names needs ordered waves-ordered

waves-perm_example : Perm (flatten ordered) names
waves-perm_example = waves-perm names needs ordered waves-ordered

waves-IsCycle_example : IsCycle names looped ("app" ∷ "lib" ∷ [])
waves-IsCycle_example = waves-IsCycle names looped ("app" ∷ "lib" ∷ []) waves-looped

abbrev rank : String → ℕ
rank name = if name == "app" then 2 else if name == "lib" then 1 else 0

needs-IsRanked : IsRanked names needs rank
needs-IsRanked = omega arith

waves_ranked_example : (ws : List (List String)) × (waves names needs ≡ ok ws)
waves_ranked_example = waves_ranked names needs rank needs-IsRanked

abbrev checkout : String → List String → RepoCheckout
checkout name needs = record { name = name; path = name; sha = ""; needs = needs }

abbrev two_rounds : List (List String)
two_rounds = ("lib" ∷ []) ∷ ("app" ∷ []) ∷ []

abbrev target : Target
target = record { alias = "unit"; binary = "forge"; args = []; in_repos = "app" ∷ "lib" ∷ [] }

abbrev run_input : RunInput
run_input = record {
  revision = "r1";
  version = "";
  stage = "build";
  substage = "test";
  sync = false;
  targets = target ∷ [];
  params = [];
  repos = checkout "app" ("lib" ∷ "core" ∷ []) ∷ checkout "lib" [] ∷ checkout "core" [] ∷ [];
  root = ".";
  spec = [];
}

waves_for_target-ordered : waves_for_target target run_input ≡ ok two_rounds
unfolding program waves_for_target waves_in of_target needs_of needs_of_from
waves_for_target-ordered = refl

app-ne-nil : ◌≢◌ {A = List String} target.in_repos []
app-ne-nil = cc

lib-app : ◌≢◌ {A = String} "lib" "app"
lib-app = ground (arith, eq_iff "lib" "app")

waves_for_target-Follows_example :
    Perm (flatten two_rounds) ("app" ∷ "lib" ∷ []) × Earlier "lib" "app" [] two_rounds
waves_for_target-Follows_example =
    waves_for_target-Follows target run_input two_rounds (checkout "app" ("lib" ∷ "core" ∷ []))
      "lib" app-ne-nil waves_for_target-ordered (refl, (refl, (refl, tt))) (inl refl) refl lib-app
      refl
