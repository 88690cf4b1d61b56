-- ===== src/Reconcile/World/Only.antt =====
-- Actions all of whose calls satisfy a predicate, whatever the world answers: one rule for each way
-- to build an action.
use mathlib.Core.List.{append_assoc}
use forge_ci.Common.{
  String, ◌≡◌, refl, ◌∙◌, sym, ap, Bool, true, false, List, [], ◌∷◌, ◌++◌, Result, ok, err, All,
  if◌then◌else◌,
}
use forge_ci.Types.{ForgeTypes}
use forge_ci.Reconcile.World.{
  Call, History, Error, M, pure, throw, and_then, ◌>>=◌, ask, wrap, lift,
}

-- Every call that the action adds to the history satisfies `P`.
pub record Only {f : ForgeTypes} {A : Type 0} (P : Call f → Type 0) (m : M f A) : Type 0 where
  pub at : (h : History f) → (new : List (Call f)) × ((m h).1 ≡ new ++ h) × All P new

All-append {ℓ κ} :
    {A : Type ℓ} (P : A → Type κ) (first later : List A)
    → All P first
    → All P later
    → All P (first ++ later)
All-append P (a ∷ first) later all rest = (all.0, All-append P first later all.1 rest)
All-append P [] later all rest = rest

module _ {f : ForgeTypes} {P : Call f → Type 0} where
  pub Only-pure : {A : Type 0} (a : A) → Only {f = f} P (pure a)
  Only-pure a = record { at = λ h. ([], refl, tt) }

  pub Only-throw : {A : Type 0} (e : Error) → Only P (throw {f = f} {A = A} e)
  Only-throw e = record { at = λ h. ([], refl, tt) }

  pub Only-lift : {A : Type 0} (r : Result Error A) → Only {f = f} P (lift r)
  unfolding lift
  Only-lift r = record { at = λ h. ([], refl, tt) }

  pub Only-ask :
      {A : Type 0} (call : Call f) (answer : History f → Result String A)
      → P call
      → Only P (ask call answer)
  unfolding ask
  Only-ask call answer p = record { at = λ h. (call ∷ [], refl, (p, tt)) }

  pub Only-wrap : {A : Type 0} (words : String) (m : M f A) → Only P m → Only P (wrap words m)
  unfolding wrap
  Only-wrap words m o = record { at = o.at }

  pub Only-if :
      {A : Type 0} (b : Bool) (m n : M f A)
      → (b ≡ true → Only P m)
      → (b ≡ false → Only P n)
      → Only P (if b then m else n)
  Only-if true m n om on = om refl
  Only-if false m n om on = on refl

  Only-and_then :
      {A B : Type 0} (r : Result Error A) (k : A → M f B)
      → ((a : A) → Only P (k a))
      → Only P (and_then r k)
  Only-and_then (ok a) k ok_k = ok_k a
  Only-and_then (err e) k ok_k = Only-throw e

  pub Only-bind :
      {A B : Type 0} (m : M f A) (k : A → M f B)
      → Only P m
      → ((a : A) → Only P (k a))
      → Only P (m >>= k)
  unfolding ◌>>=◌
  Only-bind m k om ok_k = record {
    at = λ h.
        let (new, e, all) = om.at h in
        let (later, e', all') = (Only-and_then (m h).0 k ok_k).at (m h).1 in
        (
          later ++ new,
          e' ∙ (ap (λ l. later ++ l) e ∙ sym (append_assoc later new h)),
          All-append P later new all' all,
        );
  }
