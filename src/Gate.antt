-- ===== src/Gate.antt =====
-- internal/controller/gatecontroller/gatecontroller.go: the gate that waits for an approval file.
-- Whether a file exists is the file system's answer, an argument here.
pub mod Approval
mod Tests
use forge_ci.Common.{String, Bool, true, false, Result, ok, err, ◌>>=◌, if◌then◌else◌, ◌++ₛ◌}
use forge_ci.Common.Text.{is_blank}
use forge_ci.Types.{
  ForgeTypes, GateInput, GateResult, Status, passed, failed, pending, is_failed, text_at,
}

-- The file system's error, with the path that was looked at.
pub data GateError : Type 0 where
  checking_approval : (path message : String) → GateError

abbrev pub Exists : Type 0
Exists = String → Result String Bool

-- The error of a look-up, under the gate's own words.
abbrev looked_up : String → Result String Bool → Result GateError Bool
looked_up path (ok found) = ok found
looked_up path (err message) = err (checking_approval path message)

module _ {f : ForgeTypes} (alias : String) (exists : Exists) where
  unfoldable pub evaluate : GateInput f → Result GateError GateResult
  evaluate input =
      let path = text_at "approvalPath" input.spec in
      if is_failed input.run.status
      then ok (record {
        alias = alias;
        status = failed;
        message = "the substage failed, so there is nothing to approve";
      })
      else if is_blank path
      then ok (record {
        alias = alias;
        status = pending;
        message = "waiting for approval. set spec.approvalPath and create that file to approve";
      })
      else do
        approved ← looked_up path (exists path)
        if approved
            then ok (record { alias = alias; status = passed; message = "approved by " ++ₛ path })
            else ok (record {
              alias = alias;
              status = pending;
              message = "waiting for approval. create " ++ₛ path ++ₛ " to approve";
            })
