-- ===== src/Config/Validate.antt =====
-- pkg/config/config.go: `Pipeline.Validate`, one function for each of its loops. The sets of names
-- that the loops fill are lists of what they have seen.
use forge_ci.Common.{
  String, ℕ, suc, Bool, true, not, List, [], ◌∷◌, ◌++◌, Option, none, some, Result, ok, err, ◌==◌,
  member, lookup, if◌then◌else◌,
}
use forge_ci.Common.Text.{is_blank}
use text.Mathlib.Text.{starts_with}
use forge_ci.Waves.{Needs, WavesError}
use forge_ci.Config.{Port, trigger, port_text, Repo, Manager, Engine, Target, ignore_repos}
use forge_ci.Config.Problems
use forge_ci.Config.Problems.{Place, Problem, add_if, is_kebab, is_uri, is_nil, versioning_problems}

unfoldable pub repo_problems : ℕ → List String → List Repo → List Problem
repo_problems i seen [] = []
repo_problems i seen (r ∷ rs) =
    add_if (r.name == "") (Problems.repo_unnamed i)
    ++ (add_if (r.url == "") (Problems.repo_without_url i r.name)
        ++ (add_if (member r.name seen) (Problems.repo_repeated i r.name)
            ++ repo_problems (suc i) (r.name ∷ seen) rs))

unfoldable pub repo_need_problems : ℕ → String → List String → List String → List Problem
repo_need_problems i name repos [] = []
repo_need_problems i name repos (need ∷ needs) =
    (if need == name
      then Problems.repo_needs_itself i name ∷ []
      else add_if (not (member need repos)) (Problems.repo_needs_unknown i name need))
    ++ repo_need_problems i name repos needs

unfoldable pub repos_need_problems : ℕ → List String → List Repo → List Problem
repos_need_problems i repos [] = []
repos_need_problems i repos (r ∷ rs) =
    repo_need_problems i r.name repos r.needs ++ repos_need_problems (suc i) repos rs

unfoldable pub repo_needs : Needs → List Repo → Needs
repo_needs needs [] = needs
repo_needs needs (r ∷ rs) =
    repo_needs (elim r.needs [ [] ↦ needs | n ∷ ns ↦ (r.name, n ∷ ns) ∷ needs ]) rs

unfoldable pub order_problems :
    (WavesError → Problem) → Result WavesError (List (List String)) → List Problem
order_problems problem (ok groups) = []
order_problems problem (err e) = problem e ∷ []

unfoldable pub uri_problems : String → Problem → Problem → List Problem
uri_problems uri removed bad =
    if starts_with uri "go://" then removed ∷ [] else add_if (not (is_uri uri)) bad

unfoldable pub manager_problems : ℕ → List String → List Manager → List Problem
manager_problems i seen [] = []
manager_problems i seen (m ∷ ms) =
    add_if (not (is_kebab m.alias)) (Problems.bad_manager_alias i m.alias)
    ++ (uri_problems m.engine (Problems.manager_removed_scheme i m.alias)
          (Problems.bad_manager_uri i m.alias)
        ++ (add_if (member m.alias seen) (Problems.manager_repeated i m.alias)
            ++ manager_problems (suc i) (m.alias ∷ seen) ms))

-- `ports[e.Type]`.
unfoldable pub is_port : Port → Bool
is_port (Port.unknown name) =
    member name ("compute" ∷ "state" ∷ "trigger" ∷ "gate" ∷ "promotion" ∷ "artifact" ∷ [])
is_port port = true

unfoldable pub ignore_problems : ℕ → String → List String → List String → List String → List Problem
ignore_problems i alias repos seen [] = []
ignore_problems i alias repos seen (name ∷ names) =
    add_if (not (member name repos)) (Problems.ignores_unknown i alias name)
    ++ (add_if (member name seen) (Problems.ignores_twice i alias name)
        ++ ignore_problems i alias repos (name ∷ seen) names)

abbrev pub ignored_of : Engine → List String
ignored_of e = elim e.spec [ none ↦ [] | some spec ↦ ignore_repos spec ]

unfoldable pub engine_problems :
    ℕ → (managers repos seen : List String) → List Engine → List Problem
engine_problems i managers repos seen [] = []
engine_problems i managers repos seen (e ∷ es) =
    add_if (not (is_kebab e.alias)) (Problems.bad_engine_alias i e.alias)
    ++ (add_if (not (is_port e.port)) (Problems.unknown_port i e.alias (port_text e.port))
        ++ (uri_problems e.engine (Problems.engine_removed_scheme i e.alias)
              (Problems.bad_engine_uri i e.alias)
            ++ (add_if (not (member e.manager managers))
                  (Problems.engine_manager_undeclared i e.alias e.manager)
                ++ (add_if (member e.alias seen) (Problems.engine_repeated i e.alias)
                    ++ ((if port_text e.port == "artifact"
                          then ignore_problems i e.alias repos [] (ignored_of e)
                          else [])
                        ++ engine_problems (suc i) managers repos (e.alias ∷ seen) es)))))

unfoldable pub uncalled_problems : ℕ → List String → List Manager → List Problem
uncalled_problems i called [] = []
uncalled_problems i called (m ∷ ms) =
    add_if (not (member m.alias called)) (Problems.manager_uncalled i m.alias)
    ++ uncalled_problems (suc i) called ms

-- The `engines` map once its loop is done: the last of an alias stands in front.
unfoldable pub ports_by : List Engine → List (String × Port)
ports_by [] = []
ports_by (e ∷ es) = ports_by es ++ (e.alias, e.port) ∷ []

-- `requirePort`, once the alias is looked up.
unfoldable pub port_problems : Place → String → Port → Option Port → List Problem
port_problems place alias want none = Problems.engine_undeclared place alias ∷ []
port_problems place alias want (some got) =
    add_if (not (port_text got == port_text want)) (Problems.engine_of_port place alias got want)

unfoldable pub require_port : List (String × Port) → Place → String → Port → List Problem
require_port ports place alias want = port_problems place alias want (lookup alias ports)

unfoldable pub trigger_problems : List (String × Port) → ℕ → List String → List Problem
trigger_problems ports i [] = []
trigger_problems ports i (t ∷ ts) =
    require_port ports (Problems.at_trigger i) t trigger ++ trigger_problems ports (suc i) ts

unfoldable pub in_problems : ℕ → String → List String → List String → List Problem
in_problems i alias repos [] = []
in_problems i alias repos (r ∷ rs) =
    add_if (not (member r repos)) (Problems.target_in_unknown i alias r)
    ++ in_problems i alias repos rs

unfoldable pub target_problems : ℕ → (repos seen : List String) → List Target → List Problem
target_problems i repos seen [] = []
target_problems i repos seen (t ∷ ts) =
    add_if (not (is_kebab t.alias)) (Problems.bad_target_alias i t.alias)
    ++ (add_if (is_blank t.binary) (Problems.target_without_binary i t.alias)
        ++ (in_problems i t.alias repos t.in_repos
            ++ (add_if (member t.alias seen) (Problems.target_repeated i t.alias)
                ++ target_problems (suc i) repos (t.alias ∷ seen) ts)))
