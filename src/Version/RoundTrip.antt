-- ===== src/Version/RoundTrip.antt =====
-- internal/controller/artifactcontroller/version.go: what `format` prints is a tag, and reads back
-- as the version that it was printed from.
use forge_ci.Common.{
  String, ℕ, ◌≤◌, ◌≡◌, refl, sym, ◌∙◌, ap, subst, true, false, List, [], ◌∷◌, some, nat_eq, arith,
  inl, inr, ◌++ₛ◌,
}
use text.Mathlib.TextLemmas.{append-nil}
use forge_ci.Common.Digits.{
  codes, codes-append, print_nat, read_digits, print_nat_cases, BeginsPositive,
}
use forge_ci.Types.{pos}
use forge_ci.Version.{format}
use forge_ci.Version.Scan.{read_number, expect, read_prerelease, parse_semver, is_digit}

-- A number's digits end where this text begins.
abbrev Stops : List ℕ → Type 0
Stops cs = (n : ℕ) → read_digits n cs ≡ (n, cs)

Stops-nil : Stops []
unfolding read_digits
Stops-nil n = refl

Stops-dot : (cs : List ℕ) → Stops (b'.' ∷ cs)
unfolding read_digits
Stops-dot cs n = refl

read_number-positive : (cs : List ℕ) → BeginsPositive cs → read_number cs ≡ some (read_digits 0 cs)
unfolding read_number
read_number-positive cs b =
    let digit : is_digit b.head ≡ true = positive b.head b.low b.high in
    let other : nat_eq b.head b'0' ≡ false = nonzero b.head b.low in
    rw b.split (rw (other, digit) refl)
  where
    positive : (c : ℕ) → b'1' ≤ c → c ≤ b'9' → is_digit c ≡ true
    positive c h k = ground arith

    nonzero : (c : ℕ) → b'1' ≤ c → nat_eq c b'0' ≡ false
    nonzero c h = ground arith

read_number-print :
    (n : ℕ) (rest : String)
    → Stops (codes rest)
    → read_number (codes (print_nat n ++ₛ rest)) ≡ some (n, codes rest)
read_number-print n rest stops = elim (print_nat_cases n rest) [
  | inl (z, e) ↦ rw (e, z) (unfold read_number in refl)
  | inr (begins, value) ↦ read_number-positive _ begins ∙ ap some (value ∙ stops n)
]

-- A dot in front of a text.
codes-dot : (rest : String) → codes ("." ++ₛ rest) ≡ b'.' ∷ codes rest
codes-dot rest = codes-append "." rest

read_number-dot :
    (n : ℕ) (rest : String)
    → read_number (codes (print_nat n ++ₛ ("." ++ₛ rest))) ≡ some (n, b'.' ∷ codes rest)
read_number-dot n rest =
    read_number-print n ("." ++ₛ rest) (subst Stops (sym (codes-dot rest)) (Stops-dot (codes rest)))
    ∙ ap (λ l. some (n, l)) (codes-dot rest)

codes-v : (rest : String) → codes ("v" ++ₛ rest) ≡ b'v' ∷ codes rest
codes-v rest = codes-append "v" rest

parse_semver-print :
    (major minor patch : ℕ)
    → parse_semver (
        codes (
          "v"
          ++ₛ (print_nat major
              ++ₛ ("." ++ₛ (print_nat minor ++ₛ ("." ++ₛ (print_nat patch ++ₛ "")))))))
      ≡ some (record { major = major; minor = minor; patch = patch; prerelease = false })
unfolding parse_semver expect read_prerelease
parse_semver-print major minor patch = rw codes-v (
    rw (read_number-dot major (print_nat minor ++ₛ ("." ++ₛ (print_nat patch ++ₛ "")))) (
      rw (read_number-dot minor (print_nat patch ++ₛ ""))
        (rw (read_number-print patch "" Stops-nil) refl)))

-- A version with natural parts, as `format` prints it, is a tag, and its groups are those parts.
pub parse_semver-format :
    (major minor patch : ℕ)
    → parse_semver
        (codes (format (record { major = pos major; minor = pos minor; patch = pos patch })))
      ≡ some (record { major = major; minor = minor; patch = patch; prerelease = false })
unfolding format
parse_semver-format major minor patch =
    subst
      (λ s.
        parse_semver
          (codes ("v" ++ₛ (print_nat major ++ₛ ("." ++ₛ (print_nat minor ++ₛ ("." ++ₛ s))))))
        ≡ some (record { major = major; minor = minor; patch = patch; prerelease = false }))
      (append-nil (print_nat patch)) (parse_semver-print major minor patch)
