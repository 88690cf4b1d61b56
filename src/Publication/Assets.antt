-- ===== src/Publication/Assets.antt =====
-- internal/controller/artifactcontroller/artifactcontroller.go: the assets of a plan.
use forge_ci.Common.{
  String, ◌≡◌, refl, subst, ap, ◌∙◌, Bool, true, false, ◌||◌, List, [], ◌∷◌, Option, none, some,
  Result, ok, ◌==◌, arith, eq_iff, if◌then◌else◌, ok_inj, member, inl, inr, Bool-cases, >>=-eq-ok,
}
use forge_ci.Common.Sort.{sort_by, insert_by, le_text}
use forge_ci.Publication.{
  BuiltFile, Upload, Plan, PlanError, upload_of, claimed_by, paths_of, claim, take_path,
  platform_path, uploads_from, is_proven, plan,
}

abbrev pub has_asset : String → List Upload → Bool
has_asset asset [] = false
has_asset asset (u ∷ us) = u.asset == asset || has_asset asset us

-- No two uploads travel under one name.
abbrev pub IsDistinct : List Upload → Type 0
IsDistinct [] = Unit
IsDistinct (u ∷ us) = (has_asset u.asset us ≡ false) × IsDistinct us

unclaimed :
    (asset : String) (us : List Upload) → claimed_by asset us ≡ none → has_asset asset us ≡ false
unclaimed asset [] h = refl
unclaimed asset (u ∷ us) h = ground (arith, unclaimed asset us, h)

claim-IsDistinct :
    (u : Upload) (us : List Upload) (first : Option String) {taken : List Upload}
    → claimed_by u.asset us ≡ first
    → IsDistinct us
    → claim u us first ≡ ok taken
    → IsDistinct taken
unfolding claim
claim-IsDistinct u us none free d e = subst IsDistinct (ok_inj e) (unclaimed u.asset us free, d)
claim-IsDistinct u us (some first) free d e = cc

take_path-IsDistinct :
    (file : BuiltFile) (us : List Upload) (found : Option String) {taken : List Upload}
    → IsDistinct us
    → take_path file us found ≡ ok taken
    → IsDistinct taken
unfolding take_path
take_path-IsDistinct file us none d e = subst IsDistinct (ok_inj e) d
take_path-IsDistinct file us (some path) {taken} d e =
    let u = upload_of path file in
    elim (Bool-cases (path == "" || member path (paths_of us))) [
      | inl seen ↦
          let same : ◌≡◌ {A = Result PlanError (List Upload)} (ok us) (ok taken) =
            ground (arith, seen, e) in
          subst IsDistinct (ok_inj same) d
      | inr fresh ↦ claim-IsDistinct u us (claimed_by u.asset us) refl d (ground (arith, fresh, e))
    ]

uploads_from-IsDistinct :
    (files : List BuiltFile) (us : List Upload) {all : List Upload}
    → IsDistinct us
    → uploads_from files us ≡ ok all
    → IsDistinct all
unfolding uploads_from
uploads_from-IsDistinct [] us d e = subst IsDistinct (ok_inj e) d
uploads_from-IsDistinct (file ∷ files) us d e =
    let (taken, first, rest) = >>=-eq-ok (take_path file us (platform_path file)) _ e in
    uploads_from-IsDistinct files taken (take_path-IsDistinct file us (platform_path file) d first)
      rest

if-IsDistinct :
    (b : Bool) (us vs : List Upload)
    → IsDistinct us
    → IsDistinct vs
    → IsDistinct (if b then us else vs)
if-IsDistinct true us vs d e = d
if-IsDistinct false us vs d e = e

module _ (le : Upload → Upload → Bool) where
  has_asset-insert_by :
      (asset : String) (u : Upload) (us : List Upload)
      → has_asset asset (insert_by le u us) ≡ (u.asset == asset || has_asset asset us)
  has_asset-insert_by asset u [] = refl
  has_asset-insert_by asset u (x ∷ us) = ground (arith, has_asset-insert_by asset u us)

  insert_by-IsDistinct :
      (u : Upload) (us : List Upload)
      → has_asset u.asset us ≡ false
      → IsDistinct us
      → IsDistinct (insert_by le u us)
  insert_by-IsDistinct u [] free d = (refl, tt)
  insert_by-IsDistinct u (x ∷ us) free d =
      let rest = insert_by-IsDistinct u us (ground (arith, free)) d.1 in
      let apart : (u.asset == x.asset) ≡ false =
        ground (arith, free, eq_iff u.asset x.asset, eq_iff x.asset u.asset) in
      let below : has_asset x.asset (insert_by le u us) ≡ false =
        has_asset-insert_by x.asset u us ∙ ground (arith, apart, d.0) in
      if-IsDistinct (le u x) (u ∷ x ∷ us) (x ∷ insert_by le u us) (free, d) (below, rest)

  has_asset-sort_by :
      (asset : String) (us : List Upload) → has_asset asset (sort_by le us) ≡ has_asset asset us
  has_asset-sort_by asset [] = refl
  has_asset-sort_by asset (u ∷ us) =
      has_asset-insert_by asset u (sort_by le us)
      ∙ ap (λ b. u.asset == asset || b) (has_asset-sort_by asset us)

  sort_by-IsDistinct : (us : List Upload) → IsDistinct us → IsDistinct (sort_by le us)
  sort_by-IsDistinct [] d = tt
  sort_by-IsDistinct (u ∷ us) d =
      insert_by-IsDistinct u (sort_by le us) (has_asset-sort_by u.asset us ∙ d.0)
        (sort_by-IsDistinct us d.1)

-- In a plan no two uploads travel under one name, so no asset of the release overwrites another.
pub plan-IsDistinct :
    (revision version prefix : String) (repos : List (String × String)) (files : List BuiltFile)
    (made : Plan)
    → plan revision version prefix repos files ≡ ok made
    → IsDistinct made.uploads
unfolding plan
plan-IsDistinct revision version prefix repos files made e =
    let (u, proven, e1) = >>=-eq-ok (is_proven revision version) _ e in
    let (uploads, gathered, e2) = >>=-eq-ok (uploads_from files []) _ e1 in
    subst (λ (m : Plan). IsDistinct m.uploads) (ok_inj e2)
      (sort_by-IsDistinct (λ a b. le_text a.asset b.asset) uploads
        (uploads_from-IsDistinct files [] tt gathered))
