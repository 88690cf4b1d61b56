-- ===== src/Common/Actions/Keeps.antt =====
-- Actions that keep what is seen of the world, whether they answer or fail: one rule for each way to
-- build an action.
use mathlib.Core.Path.{◌≡◌, refl, ◌∙◌}
use mathlib.Core.Bool.{Bool, true, false}
use forge_ci.Common.Results.{Result, ok, err}
use forge_ci.Common.Tests.{if◌then◌else◌}
use forge_ci.Common.Actions.{Action, pure, throw, lift, and_then, ◌>>=◌, wrap}

pub record Keeps {E W A V : Type 0} (seen : W → V) (m : Action E W A) : Type 0 where
  pub holds : (w : W) → seen (m w).1 ≡ seen w

module _ {E W A V : Type 0} (seen : W → V) where
  pub Keeps-pure : (a : A) → Keeps {E = E} seen (pure a)
  unfolding pure
  Keeps-pure a = record { holds = λ w. refl }

  pub Keeps-throw : (e : E) → Keeps {A = A} seen (throw e)
  unfolding throw
  Keeps-throw e = record { holds = λ w. refl }

  pub Keeps-lift : (r : Result E A) → Keeps seen (lift r)
  unfolding lift
  Keeps-lift r = record { holds = λ w. refl }

  pub Keeps-if :
      (b : Bool) (m n : Action E W A)
      → Keeps seen m
      → Keeps seen n
      → Keeps seen (if b then m else n)
  Keeps-if true m n k l = k
  Keeps-if false m n k l = l

module _ {D E W A V : Type 0} (seen : W → V) where
  pub Keeps-wrap : (words : D → E) (m : Action D W A) → Keeps seen m → Keeps seen (wrap words m)
  unfolding wrap
  Keeps-wrap words m k = record { holds = k.holds }

module _ {E W A B V : Type 0} (seen : W → V) where
  and_then-holds :
      (r : Result E A) (next : A → Action E W B)
      → ((a : A) → Keeps seen (next a))
      → (w : W) → seen (and_then r next w).1 ≡ seen w
  and_then-holds (ok a) next later w = (later a).holds w
  and_then-holds (err e) next later w = refl

  pub Keeps-bind :
      (m : Action E W A) (next : A → Action E W B)
      → Keeps seen m
      → ((a : A) → Keeps seen (next a))
      → Keeps seen (m >>= next)
  unfolding ◌>>=◌
  Keeps-bind m next first later = record {
    holds = λ w. and_then-holds (m w).0 next later (m w).1 ∙ first.holds w;
  }

  -- A pure part that comes first is known to have answered.
  pub Keeps-lift_bind :
      (r : Result E A) (next : A → Action E W B)
      → ((a : A) → r ≡ ok a → Keeps seen (next a))
      → Keeps seen (lift r >>= next)
  unfolding ◌>>=◌ lift
  Keeps-lift_bind (ok a) next later = record { holds = (later a refl).holds }
  Keeps-lift_bind (err e) next later = record { holds = λ w. refl }

module _ {E W A B : Type 0} where
  -- What an action that answers went through.
  pub >>=-answers :
      (m : Action E W A) (next : A → Action E W B) (w : W) {b : B}
      → ((m >>= next) w).0 ≡ ok b
      → (a : A) × ((m w).0 ≡ ok a) × ((m >>= next) w ≡ next a (m w).1)
  unfolding ◌>>=◌
  >>=-answers m next w e = answers (m w).0 (m w).1 e
    where
      answers :
          (r : Result E A) (later : W) {b : B}
          → (and_then r next later).0 ≡ ok b
          → (a : A) × (r ≡ ok a) × (and_then r next later ≡ next a later)
      answers (ok a) later e = (a, refl, refl)
      answers (err x) later e = cc
