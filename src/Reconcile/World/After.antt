-- ===== src/Reconcile/World/After.antt =====
-- What holds once an action has answered: one rule for each way to build an action.
use forge_ci.Common.{
  String, ◌≡◌, refl, subst, Bool, true, false, ◌∷◌, Result, ok, err, ok_inj, if◌then◌else◌,
}
use forge_ci.Types.{ForgeTypes}
use forge_ci.Reconcile.World.{
  Call, History, Error, M, pure, and_then, ◌>>=◌, outcome, ask, wrap, wrapped, lift,
}

-- If the action answers in this history, its answer and the history it leaves satisfy `R`.
pub record After {f : ForgeTypes} {A : Type 0} (m : M f A) (h : History f)
    (R : A → History f → Type 0) : Type 0 where
  pub holds : (a : A) → (m h).0 ≡ ok a → R a (m h).1

outcome-ok : {A : Type 0} (r : Result String A) {a : A} → outcome r ≡ ok a → r ≡ ok a
outcome-ok (ok b) e = cc
outcome-ok (err b) e = cc

wrapped-ok :
    {A : Type 0} (words : String) (r : Result Error A) {a : A} → wrapped words r ≡ ok a → r ≡ ok a
wrapped-ok words (ok b) e = e
wrapped-ok words (err b) e = cc

module _ {f : ForgeTypes} {A : Type 0} where
  pub After-pure : (R : A → History f → Type 0) {a : A} {h : History f} → R a h → After (pure a) h R
  After-pure R {h = h} r = record { holds = λ b e. subst (λ x. R x h) (ok_inj e) r }

  pub After-lift :
      (R : A → History f → Type 0) (m : Result Error A) {h : History f}
      → ((a : A) → m ≡ ok a → R a h)
      → After (lift m) h R
  unfolding lift
  After-lift R m r = record { holds = r }

  pub After-ask :
      (R : A → History f → Type 0) (call : Call f) (answer : History f → Result String A)
      {h : History f}
      → ((a : A) → answer h ≡ ok a → R a (call ∷ h))
      → After (ask call answer) h R
  unfolding ask
  After-ask R call answer {h = h} r = record { holds = λ a e. r a (outcome-ok (answer h) e) }

  pub After-wrap :
      (R : A → History f → Type 0) (words : String) (m : M f A) {h : History f}
      → After m h R
      → After (wrap words m) h R
  unfolding wrap
  After-wrap R words m {h = h} r = record { holds = λ a e. r.holds a (wrapped-ok words (m h).0 e) }

  pub After-if :
      (R : A → History f → Type 0) (b : Bool) (m n : M f A) {h : History f}
      → (b ≡ true → After m h R)
      → (b ≡ false → After n h R)
      → After (if b then m else n) h R
  After-if R true m n on off = on refl
  After-if R false m n on off = off refl

module _ {f : ForgeTypes} {A B : Type 0} where
  After-and_then :
      (Q : A → History f → Type 0) (R : B → History f → Type 0) (r : Result Error A) (k : A → M f B)
      {h : History f}
      → ((a : A) → r ≡ ok a → Q a h)
      → ((a : A) → Q a h → After (k a) h R)
      → After (and_then r k) h R
  After-and_then Q R (ok a) k q later = later a (q a refl)
  After-and_then Q R (err e) k q later = record { holds = λ b same. cc }

  -- The rule of a chain: what holds after its first part is what its rest starts from.
  pub After-bind :
      (Q : A → History f → Type 0) (R : B → History f → Type 0) (m : M f A) (k : A → M f B)
      {h : History f}
      → After m h Q
      → ((a : A) (h' : History f) → Q a h' → After (k a) h' R)
      → After (m >>= k) h R
  unfolding ◌>>=◌
  After-bind Q R m k {h = h} first later = record {
    holds = (After-and_then Q R (m h).0 k {h = (m h).1} first.holds (λ a q. later a _ q)).holds;
  }

module _ {f : ForgeTypes} {A : Type 0} where
  -- Nothing is asked of what the action answers.
  pub After-any : (m : M f A) (h : History f) → After m h (λ a h'. Unit)
  After-any m h = record { holds = λ a e. tt }

  -- What the action answers, and the history that it leaves.
  pub After-itself :
      (m : M f A) (h : History f) → After m h (λ a h'. ((m h).0 ≡ ok a) × ((m h).1 ≡ h'))
  After-itself m h = record { holds = λ a e. (e, refl) }
