-- ===== src/Gate/Tests.antt =====
-- Runs of the gate, and its theorem at them.
use forge_ci.Common.{
  String, ◌≡◌, ◌≢◌, ◌↔◌, refl, true, false, [], ◌∷◌, none, some, ok, err, ◌==◌, if◌then◌else◌,
}
use forge_ci.Common.Text.{is_blank, trim_space}
use forge_ci.Types.{ForgeTypes, GateInput, Status, passed, failed, pending, Spec, text_at, text}
use forge_ci.Gate.{checking_approval, Exists, evaluate}
use forge_ci.Gate.Approval.{status_of, evaluate-passed}

abbrev forge : ForgeTypes
forge = record { Artifact = String; TestReport = String }

abbrev input : Status → Spec → GateInput forge
input status spec = record {
  run = record {
    revision = "r1";
    stage = "build";
    substage = "default";
    engine = "here";
    status = status;
    started_at = 0;
    duration = 0;
    message = "";
    output = "";
    forge = none;
    gates = [];
  };
  spec = spec;
}

abbrev files : Exists
files path = if path == "/locked" then err "permission denied" else ok (path == "ok.txt")

program : Unit {0}
unfolding evaluate text_at trim_space
program = tt

gate_runs :
    (status_of (evaluate "approve" files (input passed (("approvalPath", text "ok.txt") ∷ [])))
      ≡ some passed)
    × (status_of (evaluate "approve" files (input passed (("approvalPath", text "no.txt") ∷ [])))
        ≡ some pending)
    × (status_of (evaluate "approve" files (input passed (("approvalPath", text " ") ∷ [])))
        ≡ some pending)
    × (status_of (evaluate "approve" files (input failed (("approvalPath", text "ok.txt") ∷ [])))
        ≡ some failed)
    × (evaluate "approve" files (input passed (("approvalPath", text "/locked") ∷ []))
        ≡ err (checking_approval "/locked" "permission denied"))
unfolding program
gate_runs = (refl, refl, refl, refl, refl)

evaluate-passed_example :
    (status_of (evaluate "approve" files (input passed (("approvalPath", text "ok.txt") ∷ [])))
      ≡ some passed)
    ↔ ((◌≢◌ {A = Status} passed failed)
        × (is_blank (text_at "approvalPath" (("approvalPath", text "ok.txt") ∷ [])) ≡ false)
        × (files (text_at "approvalPath" (("approvalPath", text "ok.txt") ∷ [])) ≡ ok true))
evaluate-passed_example =
    evaluate-passed "approve" files (input passed (("approvalPath", text "ok.txt") ∷ []))
