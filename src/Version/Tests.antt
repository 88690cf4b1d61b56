-- ===== src/Version/Tests.antt =====
-- Runs of the version rules, and the theorems at them.
use forge_ci.Common.{◌≡◌, refl, false, [], ◌∷◌, some, ok, err, arith}
use forge_ci.Common.Text.{trim_space, contains}
use forge_ci.Common.Digits.{codes, print_nat, read_digits}
use forge_ci.Types.{pos, negsuc}
use forge_ci.Version.{
  level_patch, level_minor, level_major, Triple, Cap, bad_previous, past_cap, bad_cap, apply,
  next_int, format, parse_cap, within_cap, fits, is_past, bump_loop, bump_from, bump, level_of,
  tag_name,
}
use forge_ci.Version.Scan.{
  Semver, read_number, expect, read_prerelease, parse_semver, atoi, split_dots, cap_parts,
  parse_cap_text,
}
use forge_ci.Version.RoundTrip.{parse_semver-format}
use forge_ci.Version.Forward.{IsStep, bump-IsStep}
use forge_ci.Version.Classify.{
  Semantic, claims, improve, consider, best_of, is_self, classify, claimed_by, is_claimed,
  unclaimed,
}
use forge_ci.Version.Classify.Longest.{tokens_at}
use forge_ci.Version.Classify.Winner.{IsLongest, classify-IsLongest, fallback, unclaimed-fallback}

scanner : Unit {0}
unfolding read_number expect read_prerelease parse_semver atoi split_dots cap_parts parse_cap_text
    read_digits trim_space parse_cap
scanner = tt

program : Unit {0}
unfolding scanner apply next_int format within_cap fits is_past bump_loop bump_from bump print_nat
program = tt

bump_runs :
    (bump "v0.50.3" level_minor "" ≡ ok "v0.51.0")
    × (bump "v0.50.3" level_major "v0" ≡ ok "v0.51.0")
    × (bump "v0.50.3" level_major "v0.50" ≡ ok "v0.50.4")
    × (bump "v1.2.3-rc.1" level_major "" ≡ ok "v1.2.3")
    × (bump "" level_major "v0" ≡ ok "v0.1.0")
    × (bump "v01.2.3" level_patch "" ≡ err (bad_previous "v01.2.3"))
    × (bump "v1.2.3" level_patch "v0" ≡ err (past_cap "v1.2.3" "v0"))
    × (bump "v1.2.3" level_patch "v0.1.2" ≡ err (bad_cap "v0.1.2"))
unfolding program
bump_runs = (refl, refl, refl, refl, refl, refl, refl, refl)

-- The first release is v0.1.0 whatever the cap says.
bump_first_over_cap : bump "" level_patch "v0.0" ≡ ok "v0.1.0"
unfolding program
bump_first_over_cap = refl

bump_overflow : bump "v0.0.9223372036854775807" level_patch "" ≡ ok "v0.0.-9223372036854775808"
unfolding program
bump_overflow = refl

parse_semver-format_example :
    parse_semver (codes (format (record { major = pos 0; minor = pos 50; patch = pos 3 })))
    ≡ some (record { major = 0; minor = 50; patch = 3; prerelease = false })
parse_semver-format_example = parse_semver-format 0 50 3

abbrev last_release : Semver
last_release = record { major = 0; minor = 50; patch = 3; prerelease = false }

abbrev held : Cap
held = record { major = pos 0; minor = negsuc 0 }

bump-IsStep_example :
    (next : Triple) × (bump "v0.50.3" level_major "v0" ≡ ok (format next))
    × IsStep last_release (some held) level_major next
unfolding scanner is_past
bump-IsStep_example =
    bump-IsStep "v0.50.3" "v0" level_major last_release (some held) refl refl refl (omega arith)
      refl refl

classifier : Unit {0}
unfolding claims improve consider best_of is_self classify claimed_by is_claimed unclaimed contains
    trim_space level_of tokens_at
classifier = tt

abbrev vocab : Semantic
vocab = record {
  major = "feat!:" ∷ [];
  minor = "feat" ∷ "✨" ∷ [];
  patch = "fix:" ∷ [];
  ignore = "docs:" ∷ [];
  unmatched = "ignore";
}

classify_runs :
    (classify vocab "forge-ci:" " feat!: drop v1" ≡ level_major)
    × (classify vocab "forge-ci:" "feat: add" ≡ level_minor)
    × (classify vocab "forge-ci:" "docs: feat" ≡ 0)
    × (classify vocab "forge-ci:" "forge-ci: self reconcile" ≡ level_patch)
    × (classify vocab "forge-ci:" "chore" ≡ 0)
unfolding classifier
classify_runs = (refl, refl, refl, refl, refl)

classify-IsLongest_example : IsLongest vocab "feat!: drop v1" level_major
unfolding classifier
classify-IsLongest_example =
    classify-IsLongest vocab "forge-ci:" " feat!: drop v1" level_minor "feat" refl refl

unclaimed-fallback_example : classify vocab "forge-ci:" " chore " ≡ fallback vocab
unfolding classifier
unclaimed-fallback_example = unclaimed-fallback vocab "forge-ci:" " chore " refl

tag_name_runs : (tag_name "" "v0.1.0" ≡ "v0.1.0") × (tag_name "self" "v0.1.0" ≡ "self-v0.1.0")
unfolding tag_name
tag_name_runs = (refl, refl)
