-- ===== src/Store/Rules.antt =====
-- internal/controller/statecontroller/statecontroller.go: the rules of `ensureLFSAttributes`.
use Prim.Native.Char.{Char, code}
use forge_ci.Common.{
  String, nat_eq, ◌≡◌, ◌≢◌, refl, sym, ap, ◌∙◌, Bool, Result, true, false, if◌then◌else◌, ◌||◌,
  List, [], ◌∷◌, ◌++◌, some, ok, ◌⊎◌, inl, inr, arith, ◌==◌, Bool-cases, eq_of_==, ==_refl,
  ==_false, ◌++ₛ◌,
}
use forge_ci.Common.Text.{trim_space, trim_left, trim_right, has_suffix}
use forge_ci.Common.Paths.{split, join}
use forge_ci.Common.Paths.Pieces.{IsWhole, split-++, split-whole}
use forge_ci.Common.Actions.{pure, ◌>>=◌, ◌>>◌}
use forge_ci.Common.Actions.Keeps.{>>=-answers}
use forge_ci.Config.Problems.{is_kebab}
use forge_ci.Adapters.{Fs}
use forge_ci.Store.Files.{ensure_lfs_attributes, read_if, has_rule, with_rule, rule_of}
use forge_ci.Store.Disk.{View, IsDisk, pair_eq}
use forge_ci.Store.Under.{attributes-Under}
use forge_ci.Store.Kinds.{kebab-free}
use forge_ci.Store.Paths.{occurs-++}
use mathlib.Core.Bool.{false≢true}
use text.Mathlib.TextLemmas.{nil-append, cons-append, append_assoc, append-eq-nil_iff, append-nil}

newline-cons :
    (t : String) → (c : Char) × (nat_eq (code c) b'\n' ≡ true) × ("\n" ++ₛ t ≡ String.◌∷◌ c t)
newline-cons t = ("\n", refl, cons-append "\n" "" t ∙ ap (String.◌∷◌ "\n") (nil-append t))

split-newline : (s t : String) → split b'\n' (s ++ₛ ("\n" ++ₛ t)) ≡ split b'\n' s ++ split b'\n' t
split-newline s t =
    let (c, here, e) = newline-cons t in
    ap (λ u. split b'\n' (s ++ₛ u)) e ∙ split-++ b'\n' c s t here

has_rule-++ :
    (rule : String) (xs ys : List String)
    → has_rule rule (xs ++ ys) ≡ (has_rule rule xs || has_rule rule ys)
unfolding has_rule
has_rule-++ rule [] ys = refl
has_rule-++ rule (x ∷ xs) ys = ground (arith, has_rule-++ rule xs ys)

ends_with : (s t : String) → has_suffix s t ≡ true → (u : String) × (s ≡ u ++ₛ t)
unfolding has_suffix
ends_with String.[] t h = ("", sym (eq_of_== h) ∙ sym (nil-append t))
ends_with (String.◌∷◌ c s) t h = elim (Bool-cases (String.◌∷◌ c s == t)) [
  | inl e ↦ ("", eq_of_== e ∙ sym (nil-append t))
  | inr e ↦
      let (u, same) = ends_with s t (ground (arith, e, h)) in
      (String.◌∷◌ c u, ap (String.◌∷◌ c) same ∙ sym (cons-append c u t))
]

-- The rule is the last line, on a line of its own, and what was there comes before it.
with_rule_cases :
    (rule existing : String)
    → (with_rule rule existing ≡ rule ++ₛ "\n")
      ⊎ ((u : String) × (with_rule rule existing ≡ u ++ₛ ("\n" ++ₛ (rule ++ₛ "\n"))))
unfolding with_rule
with_rule_cases rule existing = elim (Bool-cases (existing == "")) [
  | inl empty ↦ inl (
      let blank = ap (λ s. s ++ₛ (rule ++ₛ "\n")) (eq_of_== empty) ∙ nil-append (rule ++ₛ "\n") in
      ground (arith, empty, blank))
  | inr full ↦ elim (Bool-cases (has_suffix existing "\n")) [
    | inl ends ↦
        let (u, same) = ends_with existing "\n" ends in
        inr (
          u,
          let after = ap (λ s. s ++ₛ (rule ++ₛ "\n")) same ∙ append_assoc u "\n" (rule ++ₛ "\n") in
              ground (arith, full, ends, after),
        )
    | inr unended ↦
        inr (existing, ground (arith, full, unended, append_assoc existing "\n" (rule ++ₛ "\n")))
  ]
]

last_line :
    (rule : String)
    → IsWhole b'\n' rule
    → trim_space rule ≡ rule
    → has_rule rule (split b'\n' (rule ++ₛ "\n")) ≡ true
unfolding has_rule split
last_line rule whole trimmed =
    let found : (trim_space rule == rule) ≡ true = ap (λ s. s == rule) trimmed ∙ ==_refl rule in
    ap (λ s. has_rule rule (split b'\n' (rule ++ₛ s))) (sym (append-nil "\n"))
    ∙ ap (has_rule rule)
        (split-newline rule "" ∙ ap (λ l. l ++ split b'\n' "") (split-whole b'\n' rule whole))
    ∙ ground (arith, found)

-- A rule that is written is found again.
pub has_rule-with_rule :
    (rule existing : String)
    → IsWhole b'\n' rule
    → trim_space rule ≡ rule
    → has_rule rule (split b'\n' (with_rule rule existing)) ≡ true
has_rule-with_rule rule existing whole trimmed = elim (with_rule_cases rule existing) [
  | inl e ↦ ap (λ s. has_rule rule (split b'\n' s)) e ∙ last_line rule whole trimmed
  | inr (u, e) ↦
      let last = last_line rule whole trimmed in
      ap (λ s. has_rule rule (split b'\n' s)) e
      ∙ ap (has_rule rule) (split-newline u (rule ++ₛ "\n"))
      ∙ has_rule-++ rule (split b'\n' u) (split b'\n' (rule ++ₛ "\n"))
      ∙ ground (arith, last)
]

trim_right-++ : (s t : String) → t ≢ "" → trim_right t ≡ t → trim_right (s ++ₛ t) ≡ s ++ₛ t
unfolding trim_right
trim_right-++ String.[] t some_text h = ap trim_right (nil-append t) ∙ h ∙ sym (nil-append t)
trim_right-++ (String.◌∷◌ c s) t some_text h =
    let rest = trim_right-++ s t some_text h in
    let nonempty : (s ++ₛ t == "") ≡ false =
      ==_false (s ++ₛ t) "" (λ e. some_text (append-eq-nil_iff.0 e).1) in
    ap trim_right (cons-append c s t)
    ∙ ground (arith, rest, nonempty, ap (String.◌∷◌ c) rest)
    ∙ sym (cons-append c s t)

abbrev filters : String
filters = "/** filter=lfs diff=lfs merge=lfs -text"

rule_of-IsWhole : (dir : String) → is_kebab dir ≡ true → IsWhole b'\n' (rule_of dir)
unfolding rule_of
rule_of-IsWhole dir h = occurs-++ b'\n' dir filters (kebab-free b'\n' dir refl h) refl

trim_left-kebab : (dir t : String) → is_kebab dir ≡ true → trim_left (dir ++ₛ t) ≡ dir ++ₛ t
unfolding trim_left is_kebab
trim_left-kebab String.[] t h = cc
trim_left-kebab (String.◌∷◌ c s) t h =
    ap trim_left (cons-append c s t) ∙ ground (arith, h) ∙ sym (cons-append c s t)

rule_of-trimmed : (dir : String) → is_kebab dir ≡ true → trim_space (rule_of dir) ≡ rule_of dir
unfolding trim_space rule_of
rule_of-trimmed dir h =
    ap trim_right (trim_left-kebab dir filters h)
    ∙ trim_right-++ dir filters (λ e. false≢true (ap (λ s. s == "") e)) refl

module _ {W : Type 0} (fs : Fs W) (view : View W) (root : String) (disk : IsDisk fs view root) where
  abbrev attributes : String
  attributes = join (root ∷ ".gitattributes" ∷ [])

  -- Where the rule stands, nothing is written.
  ensure-settled :
      (dir text : String) (w : W)
      → view attributes w ≡ some text
      → has_rule (rule_of dir) (split b'\n' text) ≡ true
      → ensure_lfs_attributes fs root dir w ≡ (ok attributes, w)
  unfolding ensure_lfs_attributes ◌>>=◌ pure read_if
  ensure-settled dir text w there h =
      let exists =
        pair_eq (fs.exists attributes w) (disk.exists_sees attributes text w there)
          (disk.exists_keeps attributes w) in
      let reads =
        pair_eq (fs.read_file attributes w) (disk.read_sees attributes text w there)
          (disk.read_keeps attributes w) in
      rw (exists, reads, h) refl

  -- What is left to do once the file has been read.
  abbrev written_over : String → String → W → Result String String × W
  written_over dir existing =
      if has_rule (rule_of dir) (split b'\n' existing)
      then pure attributes
      else fs.write_file attributes (with_rule (rule_of dir) existing) >> pure attributes

  read_if-keeps : (there : Bool) (w : W) → (read_if fs attributes there w).1 ≡ w
  unfolding read_if pure
  read_if-keeps false w = refl
  read_if-keeps true w = disk.read_keeps attributes w

  ensure-reads :
      (dir path : String) (w : W)
      → (ensure_lfs_attributes fs root dir w).0 ≡ ok path
      → (existing : String) × (ensure_lfs_attributes fs root dir w ≡ written_over dir existing w)
  unfolding ensure_lfs_attributes
  ensure-reads dir path w answered =
      let (there, is_there, e1) = >>=-answers (fs.exists attributes) _ w answered in
      let kept = disk.exists_keeps attributes w in
      let (existing, is_read, e2) =
        >>=-answers (read_if fs attributes there) (written_over dir) (fs.exists attributes w).1
          (sym (ap (λ r. r.0) e1) ∙ answered) in
      (
        existing,
        e1
            ∙ e2
            ∙ ap (written_over dir existing)
                (ap (λ v. (read_if fs attributes there v).1) kept ∙ read_if-keeps there w),
      )

  -- To make sure of a rule a second time changes nothing: what `ensureLFSAttributes` has written once it
  -- finds again.
  pub ensure-ensure :
      (dir path : String) (w : W)
      → root ≢ ""
      → is_kebab dir ≡ true
      → (ensure_lfs_attributes fs root dir w).0 ≡ ok path
      → ensure_lfs_attributes fs root dir (ensure_lfs_attributes fs root dir w).1
        ≡ (ok (join (root ∷ ".gitattributes" ∷ [])), (ensure_lfs_attributes fs root dir w).1)
  unfolding pure
  ensure-ensure dir path w filled kebab answered =
      let (existing, run) = ensure-reads dir path w answered in
      elim (Bool-cases (has_rule (rule_of dir) (split b'\n' existing))) [
        | inl there ↦
            let settled : ensure_lfs_attributes fs root dir w ≡ (ok attributes, w) =
              run ∙ rw there refl in
            let same = ap (λ r. r.1) settled in
            ap (ensure_lfs_attributes fs root dir) same
            ∙ settled
            ∙ ap (λ v. (ok attributes, v)) (sym same)
        | inr missing ↦
            let text = with_rule (rule_of dir) existing in
            let writes : ensure_lfs_attributes fs root dir w
                ≡ (fs.write_file attributes text >> pure attributes) w =
              run ∙ rw missing refl in
            let (u, is_written, next) =
              >>=-answers (fs.write_file attributes text) _ w
                (sym (ap (λ r. r.0) writes) ∙ answered) in
            let later = (fs.write_file attributes text w).1 in
            let same : (ensure_lfs_attributes fs root dir w).1 ≡ later =
              ap (λ r. r.1) (writes ∙ next) in
            let settled =
              ensure-settled dir text later
                (disk.write_sees attributes text w (attributes-Under root filled) is_written)
                (has_rule-with_rule (rule_of dir) existing (rule_of-IsWhole dir kebab)
                  (rule_of-trimmed dir kebab)) in
            ap (ensure_lfs_attributes fs root dir) same
            ∙ settled
            ∙ ap (λ v. (ok attributes, v)) (sym same)
      ]
