-- ===== src/Types.antt =====
-- pkg/citypes/citypes.go: the records that cross between the core and the engines.
-- `map[string]any` is a list of named values. `forge.Artifact` and `forge.TestReport` are types of
-- another repository, and stand as the parameter `ForgeTypes`. Instants are nanoseconds.
use forge_ci.Common.{String, ℕ, Bool, true, false, List, [], ◌∷◌, Option, some, lookup, ◌++ₛ◌}

-- A number of Go's `float64` or `int`: `negsuc n` is -(n + 1).
pub data ℤ : Type 0 where
  pos : ℕ → ℤ
  negsuc : ℕ → ℤ

-- What a spec holds. A float is counted in billionths.
mutual
  pub data Value : Type 0 where
    null : Value
    boolean : Bool → Value
    float : ℤ → Value
    int : ℤ → Value
    text : String → Value
    list : Values → Value
    object : Fields → Value

  pub data Values : Type 0 where
    nil : Values
    cons : Value → Values → Values

  pub data Fields : Type 0 where
    end : Fields
    field : String → Value → Fields → Fields

abbrev pub Spec : Type 0
Spec = List (String × Value)

-- `spec[key].(string)` with its zero value.
unfoldable pub text_at : String → Spec → String
text_at key spec = elim (lookup key spec) [ some (text s) ↦ s | _ ↦ "" ]

-- The texts of a list of values; a value that is none is passed over.
unfoldable pub texts : Values → List String
texts nil = []
texts (cons (text s) vs) = s ∷ texts vs
texts (cons _ vs) = texts vs

pub record ForgeTypes : Type 1 where
  pub Artifact : Type 0
  pub TestReport : Type 0

pub data Status : Type 0 where
  pending running passed failed : Status

abbrev pub is_passed : Status → Bool
is_passed passed = true
is_passed _ = false

abbrev pub is_failed : Status → Bool
is_failed failed = true
is_failed _ = false

pub record Resource : Type 0 where
  pub kind : String
  pub name : String
  pub bootstrap_only : Bool
  pub spec : Spec

-- `Resource.ID`.
unfoldable pub resource_id : Resource → String
resource_id r = r.kind ++ₛ "/" ++ₛ r.name

pub record Ownership : Type 0 where
  pub resource : String
  pub manager : String

pub record ReconcileInput : Type 0 where
  pub manager : String
  pub resources : List Resource
  pub owned : List Ownership
  pub bootstrap : Bool
  pub spec : Spec
  pub dry_run : Bool
  pub force : Bool
  pub commit_prefix : String

pub record ReconcileOutput : Type 0 where
  pub owned : List Ownership
  pub actions : List String
  pub changed : Bool
  pub published : Bool

pub record RepoCheckout : Type 0 where
  pub name : String
  pub path : String
  pub sha : String
  pub needs : List String

pub record Target : Type 0 where
  pub alias : String
  pub binary : String
  pub args : List String
  pub in_repos : List String

pub record RunInput : Type 0 where
  pub revision : String
  pub version : String
  pub stage : String
  pub substage : String
  pub sync : Bool
  pub targets : List Target
  pub params : List (String × String)
  pub repos : List RepoCheckout
  pub root : String
  pub spec : Spec

pub record ForgeResult (f : ForgeTypes) : Type 0 where
  pub test_reports : List f.TestReport
  pub artifacts : List f.Artifact

pub record RunOutput (f : ForgeTypes) : Type 0 where
  pub status : Status
  pub message : String
  pub output : String
  pub forge : Option (ForgeResult f)

pub record GateResult : Type 0 where
  pub alias : String
  pub status : Status
  pub message : String

pub record Revision : Type 0 where
  pub id : String
  pub created_at : ℕ
  pub repos : List (String × String)
  pub dirty : List String

pub record Run (f : ForgeTypes) : Type 0 where
  pub revision : String
  pub stage : String
  pub substage : String
  pub engine : String
  pub status : Status
  pub started_at : ℕ
  pub duration : ℕ
  pub message : String
  pub output : String
  pub forge : Option (ForgeResult f)
  pub gates : List GateResult

pub record GateInput (f : ForgeTypes) : Type 0 where
  pub run : Run f
  pub spec : Spec

pub record PromotionInput (f : ForgeTypes) : Type 0 where
  pub stage : String
  pub runs : List (Run f)
  pub spec : Spec

pub record PromotionOutput : Type 0 where
  pub advance : Bool
  pub reason : String

pub record ArtifactInput (f : ForgeTypes) : Type 0 where
  pub revision : String
  pub version : String
  pub tag_prefix : String
  pub repos : List (String × String)
  pub artifacts : List f.Artifact
  pub spec : Spec

pub record ArtifactOutput : Type 0 where
  pub published : Bool
  pub url : String
  pub reason : String
  pub tagged : List String
  pub index : String

pub record ArtifactGetInput (f : ForgeTypes) : Type 0 where
  pub revision : String
  pub artifacts : List f.Artifact
  pub root : String
  pub spec : Spec

pub record TriggerOutput : Type 0 where
  pub changed : Bool
  pub reason : String
  pub fingerprint : String
