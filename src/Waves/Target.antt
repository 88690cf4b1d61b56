-- ===== src/Waves/Target.antt =====
-- pkg/citypes/waves.go: the order of one target's repos.
use mathlib.Core.List.{Perm, flatten}
use forge_ci.Common.{
  Among, String, ◌≡◌, ◌≢◌, refl, sym, ap, ◌∙◌, subst, true, List, [], ◌∷◌, Result, ok, err, map,
  member,
}
use forge_ci.Types.{RepoCheckout, Target, RunInput}
use forge_ci.Waves.{Needs, WavesError, waves}
use forge_ci.Waves.Order.{Follows, waves-Follows}
use forge_ci.Waves.Keeps.{waves-perm}
use forge_ci.Waves.Declared.{
  Entry, Earlier, IsDistinct, Among-map, entered, all_entered, names_of-map, Follows-IsBehind,
}

-- An assignment to a key of the map: a later one of the same name wins.
unfoldable pub needs_of_from : Needs → List RepoCheckout → Needs
needs_of_from needs [] = needs
needs_of_from needs (repo ∷ repos) =
    needs_of_from (elim repo.needs [ [] ↦ needs | n ∷ ns ↦ (repo.name, n ∷ ns) ∷ needs ]) repos

-- `NeedsOf`.
unfoldable pub needs_of : List RepoCheckout → Needs
needs_of repos = needs_of_from [] repos

-- `ordering target "alias"`, around an error of `Waves`.
pub record TargetError : Type 0 where
  pub alias : String
  pub cause : WavesError

unfoldable pub of_target :
    String → Result WavesError (List (List String)) → Result TargetError (List (List String))
of_target alias (ok groups) = ok groups
of_target alias (err e) = err (record { alias = alias; cause = e })

unfoldable pub waves_in : String → List String → Needs → Result TargetError (List (List String))
waves_in alias [] needs = ok (("" ∷ []) ∷ [])
waves_in alias (name ∷ names) needs = of_target alias (waves (name ∷ names) needs)

-- `WavesFor`: a target that names no repo runs once, at the root.
unfoldable pub waves_for_target : Target → RunInput → Result TargetError (List (List String))
waves_for_target target input = waves_in target.alias target.in_repos (needs_of input.repos)

of_target-ok :
    (alias : String) (r : Result WavesError (List (List String))) (groups : List (List String))
    → of_target alias r ≡ ok groups
    → r ≡ ok groups
unfolding of_target
of_target-ok alias (ok other) groups h = cc
of_target-ok alias (err e) groups h = cc

waves_in-ok :
    (alias : String) (names : List String) (needs : Needs) (groups : List (List String))
    → names ≢ []
    → waves_in alias names needs ≡ ok groups
    → waves names needs ≡ ok groups
unfolding waves_in
waves_in-ok alias [] needs groups named h = absurd (named refl)
waves_in-ok alias (name ∷ names) needs groups named h =
    of_target-ok alias (waves (name ∷ names) needs) groups h

-- What a checkout declares.
abbrev pub checkout_entry : RepoCheckout → Entry
checkout_entry repo = (repo.name, repo.needs)

needs_of_from-entered :
    (needs : Needs) (repos : List RepoCheckout)
    → needs_of_from needs repos ≡ all_entered needs (map checkout_entry repos)
unfolding needs_of_from
needs_of_from-entered needs [] = refl
needs_of_from-entered needs (repo ∷ repos) =
    needs_of_from-entered (elim repo.needs [ [] ↦ needs | n ∷ ns ↦ (repo.name, n ∷ ns) ∷ needs ])
      repos
    ∙ ap (λ start. all_entered start (map checkout_entry repos)) (entry repo.needs)
  where
    entry :
        (ns : List String)
        → ◌≡◌ {A = Needs}
            (elim ns [ [] ↦ needs | n ∷ ns ↦ (repo.name, n ∷ ns) ∷ needs ])
            (entered repo.name ns needs)
    entry [] = refl
    entry (n ∷ ns) = refl

-- What `WavesFor` answers for a target that names repos, where no two checkouts have one name: the
-- waves hold exactly those repos, each as often as the target names it; and where the checkout of a
-- repo declares to need another of them, each wave with the repo stands behind one with what it needs.
pub waves_for_target-Follows :
    (target : Target) (input : RunInput) (groups : List (List String)) (repo : RepoCheckout)
    (need : String)
    → target.in_repos ≢ []
    → waves_for_target target input ≡ ok groups
    → IsDistinct (map (λ (r : RepoCheckout). r.name) input.repos)
    → Among repo input.repos
    → member need repo.needs ≡ true
    → need ≢ repo.name
    → member need target.in_repos ≡ true
    → Perm (flatten groups) target.in_repos × Earlier need repo.name [] groups
unfolding waves_for_target needs_of
waves_for_target-Follows target input groups repo need named h distinct here needed apart among =
    let e = waves_in-ok target.alias target.in_repos (needs_of input.repos) groups named h in
    let entries = map checkout_entry input.repos in
    let follows =
      subst (λ needs. Follows needs target.in_repos [] groups)
        (needs_of_from-entered [] input.repos)
        (waves-Follows target.in_repos (needs_of input.repos) groups e) in
    (
      waves-perm target.in_repos (needs_of input.repos) groups e,
      Follows-IsBehind entries target.in_repos groups
          (subst IsDistinct (sym (names_of-map checkout_entry input.repos)) distinct) follows
          repo.name need repo.needs (Among-map checkout_entry repo input.repos here) needed apart
          among,
    )
