-- ===== src/Config/Problems.antt =====
-- pkg/config/config.go: what `Validate` can report, the patterns of names, and the problems of the
-- versioning part.
use forge_ci.Common.{
  String, ℕ, Bool, true, false, not, ◌&&◌, ◌||◌, List, [], ◌∷◌, ◌++◌, Option, none, some, ◌==◌, leb,
  nat_eq, every, if◌then◌else◌,
}
use forge_ci.Common.Digits.{codes}
use forge_ci.Common.Text.{is_blank}
use forge_ci.Waves.{WavesError}
use forge_ci.Version.Scan.{read_number, expect}
use forge_ci.Version.Classify.{Semantic}
use forge_ci.Config.{Port, Versioning}

-- Where a reference to an engine stands.
pub data Place : Type 0 where
  at_state : Place
  at_trigger : ℕ → Place
  at_promotion : (stage : String) → Place
  at_substage at_gates : (stage substage : String) → Place

-- One entry for each call of `add`.
pub data Problem : Type 0 where
  name_required : Problem
  bad_tag_prefix bad_strategy bad_cap bad_unmatched : String → Problem
  empty_ignore_path blank_commit_prefix semantic_unused : Problem
  repo_unnamed : ℕ → Problem
  repo_without_url repo_repeated : ℕ → String → Problem
  repo_needs_itself : ℕ → String → Problem
  repo_needs_unknown : ℕ → (repo need : String) → Problem
  repos_unordered : WavesError → Problem
  bad_manager_alias bad_manager_uri manager_repeated : ℕ → String → Problem
  manager_removed_scheme : ℕ → String → Problem
  no_engine : Problem
  bad_engine_alias bad_engine_uri engine_repeated : ℕ → String → Problem
  engine_removed_scheme : ℕ → String → Problem
  unknown_port : ℕ → (alias port : String) → Problem
  engine_manager_undeclared : ℕ → (alias manager : String) → Problem
  ignores_unknown ignores_twice : ℕ → (alias repo : String) → Problem
  manager_uncalled : ℕ → String → Problem
  engine_undeclared : Place → String → Problem
  engine_of_port : Place → (alias : String) → (got want : Port) → Problem
  state_required : Problem
  bad_target_alias target_without_binary target_repeated : ℕ → String → Problem
  target_in_unknown : ℕ → (alias repo : String) → Problem
  no_stage : Problem
  bad_stage_name stage_repeated stage_empty : ℕ → String → Problem
  bad_substage_name substage_repeated : (stage substage : String) → Problem
  artifact_with_targets substage_without_targets : (stage substage : String) → Problem
  target_unknown : (stage substage target : String) → Problem
  needs_itself : (stage substage : String) → Problem
  needs_unknown : (stage substage need : String) → Problem
  uses_malformed uses_no_earlier_stage uses_no_substage : (stage substage uses : String) → Problem
  substages_unordered : (stage : String) → WavesError → Problem
  never_synced : Problem

-- `if b { add(problem) }`.
unfoldable pub add_if : Bool → Problem → List Problem
add_if true problem = problem ∷ []
add_if false problem = []

abbrev pub is_lower_or_digit : ℕ → Bool
is_lower_or_digit c = (leb b'a' c && leb c b'z') || (leb b'0' c && leb c b'9')

unfoldable pub is_kebab_codes : List ℕ → Bool
is_kebab_codes [] = false
is_kebab_codes (c ∷ cs) =
    is_lower_or_digit c && every (λ d. is_lower_or_digit d || nat_eq d b'-') cs

-- `aliasPattern`, which is also `tagPrefixPattern`.
unfoldable pub is_kebab : String → Bool
unfolding is_kebab_codes
is_kebab name = is_kebab_codes (codes name)

unfoldable pub after_prefix : List ℕ → List ℕ → Option (List ℕ)
after_prefix [] cs = some cs
after_prefix (p ∷ ps) [] = none
after_prefix (p ∷ ps) (c ∷ cs) = let rest = after_prefix ps cs in if nat_eq p c then rest else none

-- `.+`: one character that ends no line.
unfoldable pub begins_text : Option (List ℕ) → Bool
begins_text (some (c ∷ cs)) = not (nat_eq c 10)
begins_text (some []) = false
begins_text none = false

-- `uriPattern`.
unfoldable pub is_uri : String → Bool
unfolding after_prefix begins_text
is_uri uri =
    begins_text (after_prefix (codes "forge://") (codes uri))
    || begins_text (after_prefix (codes "alias://") (codes uri))

-- `(\.(0|[1-9]\d*))?$`.
unfoldable pub ends_cap : List ℕ → Bool
ends_cap [] = true
ends_cap (c ∷ cs) = nat_eq c b'.' && (elim (read_number cs) [ some (minor, []) ↦ true | _ ↦ false ])

-- `capPattern`.
unfoldable pub is_cap : String → Bool
unfolding ends_cap expect read_number
is_cap text = elim (expect b'v' (codes text)) [
  | none ↦ false
  | some cs ↦ elim (read_number cs) [ some (major, rest) ↦ ends_cap rest | none ↦ false ]
]

-- `strategies` and `levels`.
unfoldable pub is_strategy : String → Bool
is_strategy name =
    name == "bump-patch-version" || name == "bump-minor-version" || name == "semantic"

unfoldable pub is_level : String → Bool
is_level name =
    name == "major" || name == "minor" || name == "patch" || name == "ignore" || name == "error"

abbrev pub is_nil : List String → Bool
is_nil [] = true
is_nil (x ∷ xs) = false

-- `Semantic.empty`.
unfoldable pub semantic_empty : Semantic → Bool
semantic_empty s =
    is_nil s.major && is_nil s.minor && is_nil s.patch && is_nil s.ignore && s.unmatched == ""

unfoldable pub ignore_path_problems : List String → List Problem
ignore_path_problems [] = []
ignore_path_problems (pattern ∷ patterns) =
    add_if (is_blank pattern) empty_ignore_path ++ ignore_path_problems patterns

-- `Versioning.problems`.
unfoldable pub versioning_problems : Versioning → List Problem
versioning_problems v =
    add_if (not (v.tag_prefix == "") && not (is_kebab v.tag_prefix)) (bad_tag_prefix v.tag_prefix)
    ++ (add_if (not (v.strategy == "") && not (is_strategy v.strategy)) (bad_strategy v.strategy)
        ++ (add_if (not (v.cap_to == "") && not (is_cap v.cap_to)) (bad_cap v.cap_to)
            ++ (add_if (not (v.semantic.unmatched == "") && not (is_level v.semantic.unmatched))
                  (bad_unmatched v.semantic.unmatched)
                ++ (ignore_path_problems v.ignore_paths
                    ++ (add_if
                          (not (v.self_reconcile_commit_prefix == "")
                            && is_blank v.self_reconcile_commit_prefix)
                          blank_commit_prefix
                        ++ add_if
                            (not (v.strategy == "semantic") && not (semantic_empty v.semantic))
                            semantic_unused)))))
