-- ===== src/Gate/Approval.antt =====
-- internal/controller/gatecontroller/gatecontroller.go: what it takes to pass the gate.
use forge_ci.Common.{String, ◌≡◌, ◌≢◌, ◌↔◌, true, false, Option, none, some, Result, ok, err, arith}
use forge_ci.Common.Text.{is_blank}
use forge_ci.Types.{ForgeTypes, GateInput, GateResult, Status, passed, failed, text_at}
use forge_ci.Gate.{GateError, Exists, evaluate}

-- The gate's status, where it gives one.
abbrev pub status_of : Result GateError GateResult → Option Status
status_of (ok result) = some result.status
status_of (err e) = none

module _ {f : ForgeTypes} (alias : String) (exists : Exists) where
  -- The gate passes exactly when the run did not fail, the spec names an approval file that is not
  -- blank, and the file system finds that file.
  pub evaluate-passed :
      (input : GateInput f)
      → (status_of (evaluate alias exists input) ≡ some passed) ↔ (
          (input.run.status ≢ failed)
          × (is_blank (text_at "approvalPath" input.spec) ≡ false)
          × (exists (text_at "approvalPath" input.spec) ≡ ok true))
  unfolding evaluate
  evaluate-passed input =
      (λ h. (ground arith, ground arith, ground arith), λ h. ground (arith, h.0, h.1, h.2))
