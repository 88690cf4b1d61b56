-- ===== src/Reconcile/State.antt =====
-- internal/controller/reconcilecontroller/reconcilecontroller.go: the records that the core keeps in
-- the state engine.
use forge_ci.Common.{String, List, [], Option, none, some, ok, err, ◌++ₛ◌}
use forge_ci.Common.Sort.{sort_by, le_text}
use forge_ci.Common.Text.{quote}
use forge_ci.Types.{ForgeTypes, Ownership, Run}
use forge_ci.Reconcile.World.{Env, M, ◌>>=◌, ask, wrap, lift, state_get, state_put, unreadable}
use forge_ci.Reconcile.Index.{EngineIndex}

abbrev pub kind_run : String
kind_run = "run"

abbrev pub kind_owned : String
kind_owned = "owned"

abbrev pub owned_key : String
owned_key = "resources"

module _ {f : ForgeTypes} (env : Env f) (index : EngineIndex) where
  -- `callState` with the tools get and put: its lock keeps each call whole.
  unfoldable pub get_json : String → String → M f (Option String)
  get_json kind key = wrap ("state engine " ++ₛ quote index.state_alias) (
      ask (state_get index.state_uri kind key index.state_spec)
        (λ h. env.on_state_get h index.state_uri kind key index.state_spec))

  unfoldable pub put_json : String → String → String → M f (Unit {0})
  put_json kind key payload = wrap ("state engine " ++ₛ quote index.state_alias) (
      ask (state_put index.state_uri kind key payload index.state_spec)
        (λ h. env.on_state_put h index.state_uri kind key payload index.state_spec))

  -- What a read record decodes to; one that is not found is the given value.
  unfoldable pub decoded :
      {A : Type 0} → String → String → A → (String → Option A) → Option String → M f A
  decoded kind key missing decode payload = lift (elim payload [
    | none ↦ ok missing
    | some written ↦ elim (decode written) [ none ↦ err (unreadable kind key) | some a ↦ ok a ]
  ])

  -- `readOwnership`.
  unfoldable pub read_ownership : M f (List Ownership)
  read_ownership = do
    payload ← get_json kind_owned owned_key
    decoded kind_owned owned_key [] env.decode_owned payload

  -- `writeOwnership`: the record is sorted by resource.
  unfoldable pub write_ownership : List Ownership → M f (Unit {0})
  write_ownership merged =
      put_json kind_owned owned_key
        (env.encode_owned (sort_by (λ a b. le_text a.resource b.resource) merged))

  -- `getRun`.
  unfoldable pub get_run : String → M f (Option (Run f))
  get_run key = do
    payload ← get_json kind_run key
    decoded kind_run key none
        (λ written. elim (env.decode_run written) [ none ↦ none | some run ↦ some (some run) ])
        payload

unfoldable pub run_key : String → String → String → String
run_key revision stage substage = revision ++ₛ "/" ++ₛ stage ++ₛ "/" ++ₛ substage
