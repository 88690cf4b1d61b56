-- ===== src/Reconcile/Records.antt =====
-- internal/controller/reconcilecontroller/release.go: what is recorded of a release, and of the
-- decision on one.
use forge_ci.Common.{String, ℕ, Bool, List, Option}
use forge_ci.Types.{Revision}

-- `releaseRecord`.
pub record ReleaseRecord : Type 0 where
  pub revision : String
  pub version : String
  pub tag : String
  pub repo : String
  pub repos : List (String × String)
  pub trees : List (String × String)
  pub index : String
  pub url : String
  pub released_at : ℕ

-- `releaseDecision`.
pub record ReleaseDecision : Type 0 where
  pub revision : Revision
  pub version : String
  pub tag : String
  pub previous : String
  pub skip : Bool
  pub reason : String
  pub url : String
  pub repos : List (String × String)
  pub trees : List (String × String)

-- The revision as it is stored, of the revision spec: a map or a list that is empty is left out.
pub record WireRevision : Type 0 where
  pub id : String
  pub created_at : ℕ
  pub repos : Option (List (String × String))
  pub dirty : Option (List String)
