-- ===== src/Version/Classify/Longest.antt =====
-- internal/controller/artifactcontroller/version.go: the longest token of the vocabulary wins.
use Prim.Native.String.{len}
use forge_ci.Common.{
  String, ℕ, zero, suc, ◌≤◌, ◌≡◌, ◌⊎◌, inl, inr, refl, Bool, true, false, ◌&&◌, List, [], ◌∷◌, ◌==◌,
  ltb, arith, member, eq_of_==, ==_refl, subst, Bool-cases, if◌then◌else◌,
}
use mathlib.Core.Bool.{false≢true}
use forge_ci.Version.{Level}
use forge_ci.Version.Classify.{Semantic, claims, Best, improve, consider}

-- The list of a level.
unfoldable pub tokens_at : Semantic → Level → List String
tokens_at vocab zero = vocab.ignore
tokens_at vocab (suc zero) = vocab.patch
tokens_at vocab (suc (suc zero)) = vocab.minor
tokens_at vocab (suc (suc (suc level))) = vocab.major

-- Every token that claims the subject is at most as long.
abbrev pub NoLonger : String → List String → ℕ → Type 0
NoLonger subject tokens n =
    (token : String)
    → member token tokens ≡ true
    → claims subject token ≡ true
    → suc (len token) ≤ n

improve_mono :
    (subject : String) (level : Level) (token : String) (best : Best)
    → best.length ≤ (improve subject level token best).length
unfolding improve
improve_mono subject level token best = ground arith

improve-claims :
    (subject : String) (level : Level) (token : String) (best : Best)
    → claims subject token ≡ true
    → suc (len token) ≤ (improve subject level token best).length
unfolding improve
improve-claims subject level token best h = ground arith

module _ (subject : String) (level : Level) where
  pub consider_mono :
      (tokens : List String) (best : Best)
      → best.length ≤ (consider subject level tokens best).length
  unfolding consider
  consider_mono [] best = omega arith
  consider_mono (token ∷ tokens) best = omega (
    arith,
    improve_mono subject level token best,
    consider_mono tokens (improve subject level token best),
  )

  pub consider-NoLonger :
      (tokens : List String) (best : Best)
      → NoLonger subject tokens (consider subject level tokens best).length
  unfolding consider
  consider-NoLonger [] best token m c = absurd (false≢true m)
  consider-NoLonger (t ∷ tokens) best token m c = elim (Bool-cases (t == token)) [
    | inl e ↦
        let claimed : claims subject t ≡ true = rw (eq_of_== e) c in
        let low = improve-claims subject level t best claimed in
        let up = consider_mono tokens (improve subject level t best) in
        subst
          (λ s. suc (len s) ≤ (consider subject level tokens (improve subject level t best)).length)
          (eq_of_== e) (omega (arith, low, up))
    | inr e ↦ consider-NoLonger tokens (improve subject level t best) token (ground arith) c
  ]

-- The token behind a level: one of that level's list that stands in the subject.
pub record Origin (vocab : Semantic) (subject : String) (best : Best) : Type 0 where
  pub token : String
  pub listed : member token (tokens_at vocab best.level) ≡ true
  pub claimed : claims subject token ≡ true
  pub measured : best.length ≡ suc (len token)

abbrev pub HasOrigin : Semantic → String → Best → Type 0
HasOrigin vocab subject best = (best.length ≡ 0) ⊎ Origin vocab subject best

module _ (vocab : Semantic) (subject : String) (level : Level) where
  improve-HasOrigin :
      (token : String) (best : Best)
      → member token (tokens_at vocab level) ≡ true
      → HasOrigin vocab subject best
      → HasOrigin vocab subject (improve subject level token best)
  unfolding improve
  improve-HasOrigin token best m h =
      go (claims subject token) refl (ltb best.length (suc (len token))) refl
    where
      go :
          (b : Bool)
          → claims subject token ≡ b
          → (c : Bool) → ltb best.length (suc (len token)) ≡ c
          → HasOrigin vocab subject
              (if b && c then record { level = level; length = suc (len token) } else best)
      go true e true f = inr (record { token = token; listed = m; claimed = e; measured = refl })
      go true e false f = h
      go false e c f = h

  pub consider-HasOrigin :
      (tokens : List String) (best : Best)
      → ((t : String) → member t tokens ≡ true → member t (tokens_at vocab level) ≡ true)
      → HasOrigin vocab subject best
      → HasOrigin vocab subject (consider subject level tokens best)
  unfolding consider
  consider-HasOrigin [] best sub h = h
  consider-HasOrigin (token ∷ tokens) best sub h =
      consider-HasOrigin tokens (improve subject level token best)
        (λ t m. sub t (ground (arith, m)))
        (improve-HasOrigin token best (sub token (ground (arith, ==_refl token))) h)
