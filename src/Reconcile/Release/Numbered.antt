-- ===== src/Reconcile/Release/Numbered.antt =====
-- internal/controller/reconcilecontroller/release.go: the number that `decideRelease` answers.
use forge_ci.Common.{
  String, ◌≡◌, ◌≢◌, ◌⊎◌, inl, inr, refl, sym, ◌∙◌, subst, Bool, true, false, not, ◌&&◌, List, map,
  ap, Option, none, some, Result, ok, err, ◌==◌, nat_eq, arith, eq_iff, if◌then◌else◌, length, ltb,
  ◌++ₛ◌,
}
use forge_ci.Common.Sort.{sort_by, le_text}
use mathlib.Core.Bool.{false≢true}
use mathlib.Core.Option.{some_inj}
use forge_ci.Types.{ForgeTypes, Revision}
use forge_ci.Config.{Pipeline}
use forge_ci.Version.{Level, level_none, VersionError, bump, tag_name}
use forge_ci.Reconcile.World.{Env, History}
use forge_ci.Reconcile.World.After.{
  After, After-pure, After-lift, After-if, After-bind, After-any, After-ask, After-wrap,
  After-itself,
}
use forge_ci.Reconcile.Index.{EngineIndex}
use forge_ci.Reconcile.Records.{ReleaseRecord, ReleaseDecision}
use forge_ci.Reconcile.Release.{read_release, release_home, release_set, same_map}
use forge_ci.Reconcile.Release.Scan.{CommitScan}
use forge_ci.Reconcile.Release.Asked.{IsAsked, bump_level-IsAsked}
use forge_ci.Reconcile.Release.Decide.{
  Entries, is_empty, no_decision, released_as, skipped, same_as_last, bumped, next_unless,
  last_release, decide_scanned, decide_new, decide_from, decide_release,
}

some-ne-none : {A : Type 0} {a : A} → ◌≡◌ {A = Option A} (some a) none → ⊥
some-ne-none e = cc

bumped_ok : (r : Result VersionError String) {next : String} → bumped r ≡ ok next → r ≡ ok next
bumped_ok (ok v) e = cc
bumped_ok (err x) e = cc

-- The record holds the code of the decision: its commits, or its trees.
abbrev pub IsSame : ReleaseRecord → ReleaseDecision → Type 0
IsSame prev d = (same_map prev.repos d.repos ≡ true) ⊎ (same_map prev.trees d.trees ≡ true)

-- The result of two tests.
one_of :
    {A : Type 0} (b c : Bool) (x y : A)
    → ((if b then some x else if c then some y else none) ≡ none)
      ⊎ ((b ≡ true) × ((if b then some x else if c then some y else none) ≡ some x))
      ⊎ ((c ≡ true) × ((if b then some x else if c then some y else none) ≡ some y))
one_of true c x y = inr (inl (refl, refl))
one_of false true x y = inr (inr (refl, refl))
one_of false false x y = inl refl

and-right : (a b : Bool) → (a && b) ≡ true → b ≡ true
and-right a b h = ground (arith, h)

-- A decision that skips behind a record: it carries the record's number and holds its code.
abbrev pub Converges : String → ReleaseRecord → ReleaseDecision → Type 0
Converges previous prev d =
    (d.skip ≡ true)
    × (d.previous ≡ previous)
    × (d.version ≡ prev.version)
    × (d.tag ≡ prev.tag)
    × IsSame prev d

same_as_last_cases :
    (p : Pipeline) (previous : String) (set trees : Entries) (prev : ReleaseRecord)
    → (same_as_last p previous set trees (some prev) ≡ none)
      ⊎ ((d : ReleaseDecision) × (same_as_last p previous set trees (some prev) ≡ some d)
          × Converges previous prev d)
unfolding same_as_last skipped
same_as_last_cases p previous set trees prev =
    let reason =
      "Nothing to release. The release set holds the same code as "
      ++ₛ tag_name p.versioning.tag_prefix previous
      ++ₛ "." in
    let code = skipped prev previous reason set trees in
    let paths = skipped prev previous (reason ++ₛ " Only ignored paths changed.") set trees in
    elim (one_of (not (is_empty prev.repos) && same_map prev.repos set)
      (not (is_empty prev.trees)
        && (ltb 0 (length p.versioning.ignore_paths) && same_map prev.trees trees))
      code paths) [
        | inl e ↦ inl e
        | inr (inl (b, e)) ↦ inr (code, e, (refl, refl, refl, refl, inl (and-right _ _ b)))
        | inr (inr (c, e)) ↦
            inr (paths, e, (refl, refl, refl, refl, inr (and-right _ _ (and-right _ _ c))))
      ]

module _ {f : ForgeTypes} (env : Env f) (p : Pipeline) (index : EngineIndex) (root : String)
    (revision : Revision) where
  -- The names of the release set, in their order.
  abbrev pub set_names : List String
  set_names = sort_by le_text (map (λ entry. entry.0) (release_set p index revision))

  -- The run ends: nothing asks for a release, or the record of the last one holds the same code.
  abbrev pub IsSkipped : Level → ReleaseDecision → Type 0
  IsSkipped level d =
      (d.skip ≡ true)
      × (d.previous ≢ "")
      × ((level ≡ level_none)
          ⊎ ((at : History f) × (prev : ReleaseRecord) × ((read_release env index
                  ("by-tag/" ++ₛ tag_name p.versioning.tag_prefix d.previous) at).0
                ≡ ok (some prev))
              × (d.version ≡ prev.version)
              × (d.tag ≡ prev.tag)
              × IsSame prev d))

  -- The number is the last one, raised by the level.
  abbrev pub IsNext : Level → ReleaseDecision → Type 0
  IsNext level d =
      (d.skip ≡ false)
      × (bump d.previous level p.versioning.cap_to ≡ ok d.version)
      × (d.tag ≡ tag_name p.versioning.tag_prefix d.version)

  -- The last version is what git answers in the home of the releases, the level what the strategy asks for
  -- since then.
  abbrev pub IsNew : String → ReleaseDecision → Type 0
  IsNew home d =
      (at : History f) × (level : Level) × (env.on_latest_tag at home p.versioning.tag_prefix
        ≡ ok d.previous)
      × IsAsked env p root d.previous set_names level
      × (IsSkipped level d ⊎ IsNext level d)

  -- What is decided in a pipeline that releases in the home: a revision with a record keeps the record's
  -- number and goes on; one without is new.
  abbrev pub IsDecided : History f → String → ReleaseDecision → Type 0
  IsDecided h home d =
      ((rec : ReleaseRecord) × ((read_release env index revision.id h).0 ≡ ok (some rec))
        × (d.version ≡ rec.version)
        × (d.tag ≡ rec.tag)
        × (d.skip ≡ false))
      ⊎ (((read_release env index revision.id h).0 ≡ ok none) × IsNew home d)

  abbrev pub IsNumbered : History f → ReleaseDecision → Type 0
  IsNumbered h d =
      ((release_home p index root ≡ none) × (d ≡ no_decision))
      ⊎ ((home : String) × (release_home p index root ≡ some home) × IsDecided h home d)

  -- A decision over the last version that git answered, and the level of the scan.
  abbrev IsOver : String → Level → ReleaseDecision → Type 0
  IsOver previous level d = (d.previous ≡ previous) × (IsSkipped level d ⊎ IsNext level d)

  next_unless-IsOver :
      (previous : String) (scan : CommitScan) (set trees : Entries) (same : Option ReleaseDecision)
      (h : History f)
      → ((d : ReleaseDecision) → same ≡ some d → IsOver previous scan.level d)
      → After
          (next_unless env p index root revision previous scan set trees same)
          h
          (λ d h'. IsOver previous scan.level d)
  unfolding next_unless
  next_unless-IsOver previous scan set trees (some same) h skips = After-pure _ (skips same refl)
  next_unless-IsOver previous scan set trees none h skips =
      After-bind (λ next h'. bump previous scan.level p.versioning.cap_to ≡ ok next) _ _ _
        (After-lift _ _ (λ next e. bumped_ok (bump previous scan.level p.versioning.cap_to) e))
        (λ next h' e. After-pure _ (refl, inr (refl, e, refl)))

  -- What `last_release` answers is a record only where there is a last version.
  abbrev IsLast : String → Option ReleaseRecord → Type 0
  IsLast previous none = Unit
  IsLast previous (some prev) =
      ((previous == "") ≡ false)
      × ((at : History f) × ((read_release env index
              ("by-tag/" ++ₛ tag_name p.versioning.tag_prefix previous) at).0
            ≡ ok (some prev)))

  last_release-IsLast :
      (previous : String) (h : History f)
      → After (last_release env p index root revision previous) h (λ prev h'. IsLast previous prev)
  unfolding last_release
  last_release-IsLast previous h =
      After-if _ (previous == "") _ _ (λ on. After-pure _ tt)
        (λ filled. record { holds = λ prev e. found prev filled e })
    where
      found :
          (prev : Option ReleaseRecord)
          → (previous == "") ≡ false
          → (read_release env index ("by-tag/" ++ₛ tag_name p.versioning.tag_prefix previous) h).0
            ≡ ok prev
          → IsLast previous prev
      found none filled e = tt
      found (some prev) filled e = (filled, (h, e))

  same-IsOver :
      (previous : String) (level : Level) (set trees : Entries) (prev : Option ReleaseRecord)
      → IsLast previous prev
      → (d : ReleaseDecision) → same_as_last p previous set trees prev ≡ some d
      → IsOver previous level d
  unfolding same_as_last
  same-IsOver previous level set trees none last d e = absurd (some-ne-none (sym e))
  same-IsOver previous level set trees (some prev) (filled, (at, read)) d e =
      elim (same_as_last_cases p previous set trees prev) [
        | inl none_same ↦ absurd (some-ne-none (sym e ∙ none_same))
        | inr (found, same, (skips, over, version, tag, holds)) ↦
            let named : found.previous ≢ "" =
              λ empty. false≢true (sym filled ∙ (eq_iff previous "").1 (sym over ∙ empty)) in
            let read_over =
              ap
                (λ v.
                  (read_release env index ("by-tag/" ++ₛ tag_name p.versioning.tag_prefix v) at).0)
                over
              ∙ read in
            subst (IsOver previous level) (some_inj.0 (sym same ∙ e))
              (over, inl (skips, named, inr (at, prev, read_over, version, tag, holds)))
      ]

  decide_scanned-IsOver :
      (previous : String) (scan : CommitScan) (set : Entries) (names : List String) (h : History f)
      → After
          (decide_scanned env p index root revision previous scan set names)
          h
          (λ d h'. IsOver previous scan.level d)
  unfolding decide_scanned
  decide_scanned-IsOver previous scan set names h =
      After-if _ (not (previous == "") && nat_eq scan.level level_none) _ _
        (λ on.
          let filled : previous ≢ "" = λ e. ground (arith, on, eq_iff previous "") in
          let none_asked : scan.level ≡ level_none = ground (arith, on) in
          After-pure _ (refl, inl (refl, filled, inl none_asked)))
        (λ off. After-bind _ _ _ _ (After-any _ _) (λ trees h1 t.
          After-bind _ _ _ _ (last_release-IsLast previous h1) (λ prev h2 last.
            next_unless-IsOver previous scan set trees _ h2
              (same-IsOver previous scan.level set trees prev last))))

  decide_new-IsDecided :
      (home : String) (recorded : Option ReleaseRecord) (h h1 : History f)
      → (read_release env index revision.id h).0 ≡ ok recorded
      → After (decide_new env p index root revision home recorded) h1 (λ d h'. IsDecided h home d)
  unfolding decide_new released_as
  decide_new-IsDecided home (some rec) h h1 read = After-pure _ (inl (rec, read, refl, refl, refl))
  decide_new-IsDecided home none h h1 read =
      After-bind (λ previous h'. env.on_latest_tag h1 home p.versioning.tag_prefix ≡ ok previous) _
        _ _ (After-wrap _ _ _ (After-ask _ _ _ (λ previous e. e)))
        (λ previous h2 tagged.
          After-bind _ _ _ _ (bump_level-IsAsked env p root previous set_names h2) (λ scan h3 asked.
            record {
              holds = λ d e.
                  let (over, decided) =
                    (decide_scanned-IsOver previous scan (release_set p index revision) set_names
                        h3).holds
                      d e in
                  inr (
                    read,
                    (
                      h1,
                      scan.level,
                      tagged ∙ ap ok (sym over),
                      subst (λ v. IsAsked env p root v set_names scan.level) (sym over) asked,
                      decided,
                    ),
                  );
            }))

  decide_from-IsNumbered :
      (home : Option String) (h : History f)
      → release_home p index root ≡ home
      → After (decide_from env p index root revision home) h (λ d h'. IsNumbered h d)
  unfolding decide_from
  decide_from-IsNumbered none h e = After-pure _ (inl (e, refl))
  decide_from-IsNumbered (some home) h e =
      After-bind _ _ _ _ (After-itself (read_release env index revision.id) h)
        (λ recorded h1 (read, next). record {
          holds =
              λ d made. inr (home, e, (decide_new-IsDecided home recorded h h1 read).holds d made);
        })

  -- Which number a revision gets, in every world where `decideRelease` answers. A pipeline with no home
  -- for releases decides on nothing. A revision with a release record keeps the record's version and tag,
  -- and goes on. For one without, the last version is what git answers, and the level is what the
  -- strategy asks for: a minor one, a patch, or the highest that a subject since the last version asks
  -- for. Then the run ends, behind a last version, since the level is none or the last release's record
  -- holds the same commits or trees; or the version is `Bump` of the last one at that level, and the tag is
  -- named after it.
  pub decide_release-IsNumbered :
      (h : History f) → After (decide_release env p index root revision) h (λ d h'. IsNumbered h d)
  unfolding decide_release
  decide_release-IsNumbered h = decide_from-IsNumbered (release_home p index root) h refl
