-- ===== src/Config/Stages.antt =====
-- pkg/config/config.go: `Pipeline.Validate`, its loop over the stages, and the whole of it.
use forge_ci.Common.{
  String, ℕ, zero, suc, Bool, true, false, not, ◌&&◌, ◌||◌, List, [], ◌∷◌, ◌++◌, Option, none, some,
  Result, ok, err, ◌==◌, ltb, map, member, lookup, length, if◌then◌else◌,
}
use forge_ci.Common.Text.{is_blank, cut}
use forge_ci.Waves.{waves}
use forge_ci.Config.{
  Port, compute, state, gate, promotion, port_text, Repo, Manager, Engine, Target, Substage, Stage,
  Pipeline, has_substage, substage_names, substage_needs,
}
use forge_ci.Config.Problems
use forge_ci.Config.Problems.{Problem, add_if, is_kebab, is_nil, versioning_problems}
use forge_ci.Config.Validate.{
  repo_problems, repos_need_problems, repo_needs, order_problems, manager_problems, engine_problems,
  uncalled_problems, ports_by, require_port, trigger_problems, target_problems,
}

unfoldable pub is_artifact : Option Port → Bool
is_artifact none = false
is_artifact (some got) = port_text got == "artifact"

-- `engines[sub.Engine] == PortArtifact`.
unfoldable pub publishes : List (String × Port) → String → Bool
publishes ports alias = is_artifact (lookup alias ports)

unfoldable pub unknown_targets :
    List String → (stage substage : String) → List String → List Problem
unknown_targets targets stage sub [] = []
unknown_targets targets stage sub (t ∷ ts) =
    add_if (not (member t targets)) (Problems.target_unknown stage sub t)
    ++ unknown_targets targets stage sub ts

unfoldable pub gate_problems :
    List (String × Port) → (stage substage : String) → List String → List Problem
gate_problems ports stage sub [] = []
gate_problems ports stage sub (g ∷ gs) =
    require_port ports (Problems.at_gates stage sub) g gate ++ gate_problems ports stage sub gs

unfoldable pub need_problems : Stage → String → List String → List Problem
need_problems stage sub [] = []
need_problems stage sub (n ∷ ns) =
    (if n == sub
      then Problems.needs_itself stage.name sub ∷ []
      else add_if (not (has_substage n stage.substages)) (Problems.needs_unknown stage.name sub n))
    ++ need_problems stage sub ns

-- The engine of a substage, and what it runs.
unfoldable pub work_problems : List (String × Port) → List String → Stage → Substage → List Problem
work_problems ports targets stage sub =
    let publishing = publishes ports sub.engine in
    (if publishing
      then []
      else require_port ports (Problems.at_substage stage.name sub.name) sub.engine compute)
    ++ ((if publishing
          then add_if (not (is_nil sub.targets))
              (Problems.artifact_with_targets stage.name sub.name)
          else add_if (is_nil sub.targets) (Problems.substage_without_targets stage.name sub.name))
        ++ unknown_targets targets stage.name sub.name sub.targets)

unfoldable pub substage_problems :
    List (String × Port) → List String → Stage → (seen : List String) → List Substage → List Problem
substage_problems ports targets stage seen [] = []
substage_problems ports targets stage seen (sub ∷ subs) =
    add_if (not (is_kebab sub.name)) (Problems.bad_substage_name stage.name sub.name)
    ++ (add_if (member sub.name seen) (Problems.substage_repeated stage.name sub.name)
        ++ (work_problems ports targets stage sub
            ++ (gate_problems ports stage.name sub.name sub.gates
                ++ (need_problems stage sub.name sub.needs
                    ++ substage_problems ports targets stage (sub.name ∷ seen) subs))))

-- `stageBefore`.
unfoldable pub stage_before : ℕ → String → List Stage → Option Stage
stage_before at name [] = none
stage_before zero name (s ∷ ss) = none
stage_before (suc at) name (s ∷ ss) =
    let rest = stage_before at name ss in if s.name == name then some s else rest

unfoldable pub use_problems : List Stage → ℕ → Stage → String → String → List Problem
use_problems stages at stage sub uses = elim (cut b'/' uses) [
  | none ↦ Problems.uses_malformed stage.name sub uses ∷ []
  | some (stage_name, sub_name) ↦ elim (stage_before at stage_name stages) [
    | none ↦ Problems.uses_no_earlier_stage stage.name sub stage_name ∷ []
    | some before ↦
        add_if (not (has_substage sub_name before.substages))
          (Problems.uses_no_substage stage.name sub uses)
  ]
]

unfoldable pub uses_problems : List Stage → ℕ → Stage → String → List String → List Problem
uses_problems stages at stage sub [] = []
uses_problems stages at stage sub (u ∷ us) =
    use_problems stages at stage sub u ++ uses_problems stages at stage sub us

unfoldable pub substages_uses_problems : List Stage → ℕ → Stage → List Substage → List Problem
substages_uses_problems stages at stage [] = []
substages_uses_problems stages at stage (sub ∷ subs) =
    uses_problems stages at stage sub.name sub.uses ++ substages_uses_problems stages at stage subs

abbrev pub has_none : List Substage → Bool
has_none [] = true
has_none (sub ∷ subs) = false

unfoldable pub stage_problems :
    List (String × Port)
    → List String
    → List Stage
    → ℕ
    → (seen : List String) → Stage
    → List Problem
stage_problems ports targets stages i seen s =
    add_if (not (is_kebab s.name)) (Problems.bad_stage_name i s.name)
    ++ (add_if (member s.name seen) (Problems.stage_repeated i s.name)
        ++ ((if s.promotion == ""
              then []
              else require_port ports (Problems.at_promotion s.name) s.promotion promotion)
            ++ (add_if (has_none s.substages) (Problems.stage_empty i s.name)
                ++ (substage_problems ports targets s [] s.substages
                    ++ (substages_uses_problems stages i s s.substages
                        ++ order_problems (Problems.substages_unordered s.name)
                            (waves (substage_names s) (substage_needs s)))))))

unfoldable pub stages_problems :
    List (String × Port)
    → List String
    → List Stage
    → ℕ
    → (seen : List String) → List Stage
    → List Problem
stages_problems ports targets stages i seen [] = []
stages_problems ports targets stages i seen (s ∷ ss) =
    stage_problems ports targets stages i seen s
    ++ stages_problems ports targets stages (suc i) (s.name ∷ seen) ss

unfoldable pub syncs : List Substage → Bool
syncs [] = false
syncs (sub ∷ subs) = sub.sync || syncs subs

unfoldable pub any_syncs : List Stage → Bool
any_syncs [] = false
any_syncs (s ∷ ss) = syncs s.substages || any_syncs ss

-- The problems before those of the stages, in the order in which they are added.
unfoldable pub front_problems : Pipeline → List String → List (String × Port) → List Problem
front_problems p repos ports =
    add_if (is_blank p.name) Problems.name_required
    ++ (versioning_problems p.versioning
        ++ (repo_problems 0 [] p.repos
            ++ (repos_need_problems 0 repos p.repos
                ++ (order_problems Problems.repos_unordered (waves repos (repo_needs [] p.repos))
                    ++ (manager_problems 0 [] p.managers
                        ++ ((elim p.engines [ [] ↦ Problems.no_engine ∷ [] | e ∷ es ↦ [] ])
                            ++ (engine_problems 0 (map (λ (m : Manager). m.alias) p.managers) repos
                                  [] p.engines
                                ++ (uncalled_problems 0 (map (λ (e : Engine). e.manager) p.engines)
                                      p.managers
                                    ++ ((if p.state == ""
                                          then Problems.state_required ∷ []
                                          else require_port ports Problems.at_state p.state state)
                                        ++ (trigger_problems ports 0 p.triggers
                                            ++ (target_problems 0 repos [] p.targets
                                                ++ (elim p.stages [
                                                  | [] ↦ Problems.no_stage ∷ []
                                                  | s ∷ ss ↦ []
                                                ]))))))))))))

unfoldable pub problems : Pipeline → List Problem
problems p =
    let ports = ports_by p.engines in
    let repos = map (λ (r : Repo). r.name) p.repos in
    front_problems p repos ports
    ++ (stages_problems ports (map (λ (t : Target). t.alias) p.targets) p.stages 0 [] p.stages
        ++ add_if (ltb 1 (length p.repos) && not (any_syncs p.stages)) Problems.never_synced)

unfoldable pub verdict : List Problem → Result (List Problem) (Unit {0})
verdict [] = ok tt
verdict (e ∷ es) = err (e ∷ es)

-- `Pipeline.Validate`.
unfoldable pub validate : Pipeline → Result (List Problem) (Unit {0})
validate p = verdict (problems p)
