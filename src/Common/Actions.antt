-- ===== src/Common/Actions.antt =====
-- Actions on a world, which may fail: the world goes on from an action that fails as well.
pub mod Keeps
use forge_ci.Common.Results.{Result, ok, err}

abbrev pub Action : Type 0 → Type 0 → Type 0 → Type 0
Action E W A = W → Result E A × W

module _ {E W : Type 0} where
  unfoldable pub pure : {A : Type 0} → A → Action E W A
  pure a w = (ok a, w)

  unfoldable pub throw : {A : Type 0} → E → Action E W A
  throw e w = (err e, w)

  unfoldable pub lift : {A : Type 0} → Result E A → Action E W A
  lift r w = (r, w)

  abbrev pub and_then : {A B : Type 0} → Result E A → (A → Action E W B) → Action E W B
  and_then (ok a) next w = next a w
  and_then (err e) next w = (err e, w)

  infixl 5 ◌>>=◌ ◌>>◌
  unfoldable pub ◌>>=◌ : {A B : Type 0} → Action E W A → (A → Action E W B) → Action E W B
  ◌>>=◌ first next w = let (r, later) = first w in and_then r next later

  abbrev pub ◌>>◌ : {A B : Type 0} → Action E W A → Action E W B → Action E W B
  first >> next = first >>= λ _. next

abbrev pub renamed : {D E A : Type 0} → (D → E) → Result D A → Result E A
renamed words (ok a) = ok a
renamed words (err d) = err (words d)

-- `fmt.Errorf("words: %w", err)` around an action.
unfoldable pub wrap : {D E W A : Type 0} → (D → E) → Action D W A → Action E W A
wrap words first w = let (r, later) = first w in (renamed words r, later)
