-- ===== src/Version/Classify/Winner.antt =====
-- internal/controller/artifactcontroller/version.go: what `Classify` answers, and how `Unclaimed`
-- agrees with it.
use Prim.Native.String.{len}
use mathlib.Core.Bool.{false≢true}
use forge_ci.Common.{
  String, zero, suc, ◌≤◌, ◌<◌, ◌≡◌, inl, inr, refl, sym, ◌∙◌, subst, true, false, List, [], ◌∷◌,
  ◌==◌, ltb, arith, member, eq_of_==, Bool-cases, if◌then◌else◌,
}
use forge_ci.Common.Text.{trim_space}
use forge_ci.Version.{Level, level_none, level_patch, level_minor, level_major, level_of}
use forge_ci.Version.Classify.{
  Semantic, claims, Best, unclaimed_yet, consider, is_self, best_of, classify, claimed_by,
  is_claimed, unclaimed,
}
use forge_ci.Version.Classify.Longest.{
  tokens_at, consider_mono, consider-NoLonger, consider-HasOrigin, HasOrigin,
}

-- A token of the level's list that stands in the subject, and no longer token of any list does.
pub record IsLongest (vocab : Semantic) (subject : String) (level : Level) : Type 0 where
  pub token : String
  pub listed : member token (tokens_at vocab level) ≡ true
  pub claimed : claims subject token ≡ true
  pub longest :
      (l : Level) (t : String)
      → member t (tokens_at vocab l) ≡ true
      → claims subject t ≡ true
      → len t ≤ len token

module _ (vocab : Semantic) (subject : String) where
  abbrev after_ignore : Best
  after_ignore = consider subject level_none vocab.ignore unclaimed_yet

  abbrev after_patch : Best
  after_patch = consider subject level_patch vocab.patch after_ignore

  abbrev after_minor : Best
  after_minor = consider subject level_minor vocab.minor after_patch

  abbrev after_major : Best
  after_major = consider subject level_major vocab.major after_minor

  pub best_of-NoLonger :
      (l : Level) (t : String)
      → member t (tokens_at vocab l) ≡ true
      → claims subject t ≡ true
      → suc (len t) ≤ (best_of vocab subject).length
  unfolding best_of tokens_at
  best_of-NoLonger zero t m c = omega (
    arith,
    consider-NoLonger subject level_none vocab.ignore unclaimed_yet t m c,
    consider_mono subject level_patch vocab.patch after_ignore,
    consider_mono subject level_minor vocab.minor after_patch,
    consider_mono subject level_major vocab.major after_minor,
  )
  best_of-NoLonger (suc zero) t m c = omega (
    arith,
    consider-NoLonger subject level_patch vocab.patch after_ignore t m c,
    consider_mono subject level_minor vocab.minor after_patch,
    consider_mono subject level_major vocab.major after_minor,
  )
  best_of-NoLonger (suc (suc zero)) t m c = omega (
    arith,
    consider-NoLonger subject level_minor vocab.minor after_patch t m c,
    consider_mono subject level_major vocab.major after_minor,
  )
  best_of-NoLonger (suc (suc (suc l))) t m c =
      consider-NoLonger subject level_major vocab.major after_minor t m c

  best_of-HasOrigin : HasOrigin vocab subject (best_of vocab subject)
  unfolding best_of tokens_at
  best_of-HasOrigin =
      consider-HasOrigin vocab subject level_major vocab.major after_minor (λ t m. m)
        (consider-HasOrigin vocab subject level_minor vocab.minor after_patch (λ t m. m)
          (consider-HasOrigin vocab subject level_patch vocab.patch after_ignore (λ t m. m)
            (consider-HasOrigin vocab subject level_none vocab.ignore unclaimed_yet (λ t m. m)
              (inl refl))))

  pub best_of-IsLongest :
      0 < (best_of vocab subject).length → IsLongest vocab subject (best_of vocab subject).level
  best_of-IsLongest h = from best_of-HasOrigin
    where
      from :
          HasOrigin vocab subject (best_of vocab subject)
          → IsLongest vocab subject (best_of vocab subject).level
      from (inl z) = absurd (omega arith)
      from (inr o) = record {
        token = o.token;
        listed = o.listed;
        claimed = o.claimed;
        longest = λ l t m c. omega (arith, o.measured, best_of-NoLonger l t m c);
      }

-- `Classify` goes by the longest token: when some token of a list stands in the trimmed subject,
-- the answer is the level of a list that has such a token, and no token of any list that stands
-- in the subject is longer. The order of the lists decides only between tokens of one length.
pub classify-IsLongest :
    (vocab : Semantic) (self_prefix subject : String) (level : Level) (token : String)
    → member token (tokens_at vocab level) ≡ true
    → claims (trim_space subject) token ≡ true
    → IsLongest vocab (trim_space subject) (classify vocab self_prefix subject)
unfolding classify
classify-IsLongest vocab self_prefix subject level token m c =
    let some_length : 0 < (best_of vocab (trim_space subject)).length =
      omega (arith, best_of-NoLonger vocab (trim_space subject) level token m c) in
    let tested : ltb 0 (best_of vocab (trim_space subject)).length ≡ true = ground arith in
    rw tested (best_of-IsLongest vocab (trim_space subject) some_length)

-- The level of a subject that no list claims and that is not forge-ci's own.
unfoldable pub fallback : Semantic → Level
fallback vocab = if vocab.unmatched == "" then level_patch else level_of vocab.unmatched

claimed_by-member :
    (subject token : String) (tokens : List String)
    → claimed_by subject tokens ≡ false
    → member token tokens ≡ true
    → claims subject token ≡ false
unfolding claimed_by
claimed_by-member subject token [] h m = absurd (false≢true m)
claimed_by-member subject token (t ∷ tokens) h m = elim (Bool-cases (t == token)) [
  | inl e ↦ subst (λ s. claims subject s ≡ false) (eq_of_== e) (ground arith)
  | inr e ↦ claimed_by-member subject token tokens (ground arith) (ground arith)
]

is_claimed-tokens :
    (vocab : Semantic) (self_prefix subject : String) (level : Level) (token : String)
    → is_claimed vocab self_prefix subject ≡ false
    → member token (tokens_at vocab level) ≡ true
    → claims subject token ≡ false
unfolding is_claimed tokens_at
is_claimed-tokens vocab p s zero token h m = claimed_by-member s token vocab.ignore (ground arith) m
is_claimed-tokens vocab p s (suc zero) token h m =
    claimed_by-member s token vocab.patch (ground arith) m
is_claimed-tokens vocab p s (suc (suc zero)) token h m =
    claimed_by-member s token vocab.minor (ground arith) m
is_claimed-tokens vocab p s (suc (suc (suc l))) token h m =
    claimed_by-member s token vocab.major (ground arith) m

unwon :
    (vocab : Semantic) (self_prefix subject : String)
    → is_claimed vocab self_prefix subject ≡ false
    → ltb 0 (best_of vocab subject).length ≡ false
unwon vocab self_prefix subject h = elim (Bool-cases (ltb 0 (best_of vocab subject).length)) [
  | inl won ↦
      let w = best_of-IsLongest vocab subject (ground arith) in
      absurd (
        false≢true (
          sym (
            is_claimed-tokens vocab self_prefix subject (best_of vocab subject).level w.token h
              w.listed)
          ∙ w.claimed))
  | inr e ↦ e
]

-- `Unclaimed` and `Classify` agree: a subject that `Unclaimed` reports is one that `Classify` scores
-- by the rule for unmatched subjects alone, whatever the lists hold.
pub unclaimed-fallback :
    (vocab : Semantic) (self_prefix subject : String)
    → unclaimed vocab self_prefix (subject ∷ []) ≡ trim_space subject ∷ []
    → classify vocab self_prefix subject ≡ fallback vocab
unfolding unclaimed classify fallback
unclaimed-fallback vocab self_prefix subject h =
    let s = trim_space subject in
    let free : is_claimed vocab self_prefix s ≡ false = ground arith in
    let not_self : is_self self_prefix s ≡ false = unfold is_claimed in ground arith in
    let none_won : ltb 0 (best_of vocab s).length ≡ false = unwon vocab self_prefix s free in
    rw (none_won, not_self) refl
