-- ===== src/Reconcile/Release/Asked.antt =====
-- internal/controller/reconcilecontroller/reconcilecontroller.go: the level that `bumpLevel` answers.
use forge_ci.Common.{
  Among, String, ◌≤◌, ◌≡◌, ◌⊎◌, refl, sym, ap, ◌∙◌, subst, true, false, List, [], ◌∷◌, ◌++◌, ok,
  ◌==◌, ltb, All, Bool-cases, inl, inr, arith, if◌then◌else◌,
}
use forge_ci.Common.Paths.{join}
use forge_ci.Types.{ForgeTypes}
use forge_ci.Config.{Pipeline, commit_prefix}
use forge_ci.Version.{Level, level_none, level_patch, level_minor, tag_name}
use forge_ci.Version.Classify.{Semantic, classify}
use forge_ci.Reconcile.World.{Env, History}
use forge_ci.Reconcile.World.After.{
  After, After-pure, After-if, After-bind, After-any, After-ask, After-wrap,
}
use forge_ci.Reconcile.Release.Scan.{
  CommitScan, scan_at, scan_subject, scan_subjects, scan_repos, bump_level,
}

-- No subject asks for more than the level, and one asks for it unless it is none.
abbrev pub IsHighest : Semantic → String → List String → Level → Type 0
IsHighest scoring prefix subjects level =
    All (λ s. classify scoring prefix s ≤ level) subjects
    × ((level ≡ level_none)
        ⊎ ((s : String) × Among s subjects × (classify scoring prefix s ≡ level)))

-- A subject outside of the vocabulary asks for a patch where the vocabulary calls it an error.
abbrev pub scoring_of : Semantic → Semantic
scoring_of vocab =
    if vocab.unmatched == "error" then record vocab { unmatched = "patch" } else vocab

module _ (scoring : Semantic) (prefix : String) where
  abbrev higher : Level → String → Level
  higher level subject =
      if ltb level (classify scoring prefix subject) then classify scoring prefix subject else level

  abbrev raised : Level → List String → Level
  raised level [] = level
  raised level (s ∷ ss) = raised (higher level s) ss

  scan_subjects-level :
      (name : String) (subjects : List String) (scan : CommitScan)
      → (scan_subjects scoring prefix name subjects scan).level ≡ raised scan.level subjects
  unfolding scan_subjects scan_subject
  scan_subjects-level name [] scan = refl
  scan_subjects-level name (s ∷ ss) scan =
      scan_subjects-level name ss (scan_subject scoring prefix name s scan)

  raised-++ :
      (level : Level) (xs ys : List String) → raised level (xs ++ ys) ≡ raised (raised level xs) ys
  raised-++ level [] ys = refl
  raised-++ level (x ∷ xs) ys = raised-++ (higher level x) xs ys

  higher-le : (level : Level) (s : String) → level ≤ higher level s
  higher-le level s = ground arith

  higher-ge : (level : Level) (s : String) → classify scoring prefix s ≤ higher level s
  higher-ge level s = ground arith

  higher_cases :
      (level : Level) (s : String)
      → (higher level s ≡ level) ⊎ (classify scoring prefix s ≡ higher level s)
  higher_cases level s = elim (Bool-cases (ltb level (classify scoring prefix s))) [
    | inl more ↦ inr (ground (arith, more))
    | inr less ↦ inl (ground (arith, less))
  ]

  raised-le : (level : Level) (ss : List String) → level ≤ raised level ss
  raised-le level [] = omega arith
  raised-le level (s ∷ ss) = omega (arith, higher-le level s, raised-le (higher level s) ss)

  raised-All :
      (level : Level) (ss : List String) → All (λ s. classify scoring prefix s ≤ raised level ss) ss
  raised-All level [] = tt
  raised-All level (s ∷ ss) = (
    omega (arith, higher-ge level s, raised-le (higher level s) ss),
    raised-All (higher level s) ss,
  )

  raised_cases :
      (level : Level) (ss : List String)
      → (raised level ss ≡ level)
        ⊎ ((s : String) × Among s ss × (classify scoring prefix s ≡ raised level ss))
  raised_cases level [] = inl refl
  raised_cases level (s ∷ ss) = elim (raised_cases (higher level s) ss) [
    | inr (found, among, e) ↦ inr (found, inr among, e)
    | inl same ↦ elim (higher_cases level s) [
      | inl kept ↦ inl (same ∙ kept)
      | inr taken ↦ inr (s, inl refl, taken ∙ sym same)
    ]
  ]

module _ {f : ForgeTypes} (env : Env f) (p : Pipeline) (root : String) where
  -- The subjects that git answers for the repos, one repo after another.
  abbrev pub Reads : String → List String → List String → Type 0
  Reads tag [] subjects = subjects ≡ []
  Reads tag (name ∷ names) subjects =
      (h : History f) × (got : List String) × (rest : List String) × (env.on_subjects_since h
          (join (root ∷ name ∷ [])) tag
        ≡ ok got)
      × Reads tag names rest
      × (subjects ≡ got ++ rest)

  -- The level that the strategy of the pipeline asks for, since the last version.
  abbrev pub IsAsked : String → List String → Level → Type 0
  IsAsked previous names level =
      (((p.versioning.strategy == "bump-minor-version") ≡ true) × (level ≡ level_minor))
      ⊎ (((p.versioning.strategy == "semantic") ≡ true)
          × ((subjects : List String) × Reads (tag_name p.versioning.tag_prefix previous) names
                subjects
              × IsHighest (scoring_of p.versioning.semantic) (commit_prefix p.versioning) subjects
                  level))
      ⊎ (((p.versioning.strategy == "bump-minor-version") ≡ false)
          × ((p.versioning.strategy == "semantic") ≡ false)
          × (level ≡ level_patch))

  abbrev Scanned : String → Semantic → String → Level → List String → CommitScan → Type 0
  Scanned tag scoring prefix level names scan =
      (subjects : List String) × Reads tag names subjects
      × (scan.level ≡ raised scoring prefix level subjects)

  scan_repos-Scanned :
      (tag prefix : String) (vocab scoring : Semantic) (names : List String) (scan : CommitScan)
      (h : History f)
      → After
          (scan_repos env root tag prefix vocab scoring names scan)
          h
          (λ out h'. Scanned tag scoring prefix scan.level names out)
  unfolding scan_repos
  scan_repos-Scanned tag prefix vocab scoring [] scan h = After-pure _ ([], refl, refl)
  scan_repos-Scanned tag prefix vocab scoring (name ∷ names) scan h =
      let dir = join (root ∷ name ∷ []) in
      After-bind (λ got h'. env.on_subjects_since h dir tag ≡ ok got) _ _ _
        (After-wrap _ _ _ (After-ask _ _ _ (λ got e. e)))
        (λ got h1 read. After-bind _ _ _ _ (After-any _ _) (λ u h2 t.
          let next = scan_subjects scoring prefix name got scan in
          record {
            holds = λ out e.
                let (rest, reads, level) =
                  (scan_repos-Scanned tag prefix vocab scoring names next h2).holds out e in
                (
                  got ++ rest,
                  (h, got, rest, read, reads, refl),
                  level
                      ∙ ap (λ l. raised scoring prefix l rest)
                          (scan_subjects-level scoring prefix name got scan)
                      ∙ sym (raised-++ scoring prefix scan.level got rest),
                );
          }))

  pub bump_level-IsAsked :
      (previous : String) (names : List String) (h : History f)
      → After
          (bump_level env p root previous names)
          h
          (λ scan h'. IsAsked previous names scan.level)
  unfolding bump_level
  bump_level-IsAsked previous names h =
      After-if _ (p.versioning.strategy == "bump-minor-version") _ _
        (λ minor. After-pure _ (inl (minor, refl)))
        (λ other.
          After-if _ (p.versioning.strategy == "semantic") _ _
            (λ semantic. record {
              holds = λ scan e.
                  let (subjects, reads, level) =
                    (scan_repos-Scanned (tag_name p.versioning.tag_prefix previous)
                        (commit_prefix p.versioning) p.versioning.semantic
                        (scoring_of p.versioning.semantic) names
                        (record (scan_at level_none) { semantic = true }) h).holds
                      scan e in
                  let scoring = scoring_of p.versioning.semantic in
                  let prefix = commit_prefix p.versioning in
                  inr (
                    inl (
                      semantic,
                      (
                        subjects,
                        reads,
                        subst (IsHighest scoring prefix subjects) (sym level) (
                          raised-All scoring prefix level_none subjects,
                          raised_cases scoring prefix level_none subjects,
                        ),
                      ),
                    ));
            })
            (λ neither. After-pure _ (inr (inr (other, neither, refl)))))
