-- ===== src/Promotion/Tests.antt =====
-- Runs of the promotion, and the theorems at them.
use forge_ci.Common.{
  String, ◌≡◌, ◌≢◌, refl, true, false, List, [], ◌∷◌, none, some, ok, err, eq_iff, arith, every,
}
use forge_ci.Common.Text.{quote}
use forge_ci.Common.Digits.{print_nat}
use forge_ci.Types.{
  ForgeTypes, Run, GateResult, Status, passed, failed, pending, float, pos, Spec, PromotionInput,
}
use forge_ci.Promotion.{
  threshold, threshold_of, float_threshold, float_of, counts, first_blocking_gate, rounded,
  evaluate,
}
use forge_ci.Promotion.Threshold.{
  verdict, all_passed, evaluate-every, evaluate-all_counted, evaluate_mono,
}

program : Unit {0}
unfolding threshold_of float_threshold float_of counts first_blocking_gate rounded evaluate quote
    print_nat
program = tt

abbrev forge : ForgeTypes
forge = record { Artifact = String; TestReport = String }

abbrev gate : Status → GateResult
gate status = record { alias = "approve"; status = status; message = "" }

abbrev run : Status → List GateResult → Run forge
run status gates = record {
  revision = "r1";
  stage = "build";
  substage = "default";
  engine = "here";
  status = status;
  started_at = 0;
  duration = 0;
  message = "";
  output = "";
  forge = none;
  gates = gates;
}

abbrev input : List (Run forge) → Spec → PromotionInput forge
input runs spec = record { stage = "build"; runs = runs; spec = spec }

abbrev mixed : List (Run forge)
mixed = run passed (gate passed ∷ []) ∷ run passed (gate pending ∷ []) ∷ run failed [] ∷ []

evaluate-mixed :
    evaluate (input mixed [])
    ≡ ok (record {
      advance = false;
      reason =
          "stage \"build\" passed 1 of 3 substages, which is 33 percent, below the 100 percent needed";
    })
unfolding program
evaluate-mixed = refl

evaluate_third :
    evaluate (input mixed (("threshold", float (pos 33_000_000_000)) ∷ []))
    ≡ ok (record { advance = true; reason = "stage \"build\" passed 1 of 3 substages" })
unfolding program
evaluate_third = refl

evaluate_over :
    evaluate (input mixed (("threshold", float (pos 100_000_000_001)) ∷ [])) ≡ err threshold
unfolding program
evaluate_over = refl

abbrev done : List (Run forge)
done = run passed (gate passed ∷ []) ∷ run passed [] ∷ []

approve-named : ◌≢◌ {A = String} "approve" ""
approve-named = ground (arith, eq_iff "approve" "")

evaluate-every_example : verdict (evaluate (input mixed [])) ≡ some (every all_passed mixed)
evaluate-every_example =
    evaluate-every (input mixed []) (omega arith) (omega arith)
      ((approve-named, tt), ((approve-named, tt), (tt, tt))) refl

evaluate-all_counted_example :
    verdict (evaluate (input done (("threshold", float (pos 66_600_000_000)) ∷ []))) ≡ some true
unfolding program
evaluate-all_counted_example =
    evaluate-all_counted (input done (("threshold", float (pos 66_600_000_000)) ∷ []))
      66_600_000_000 (omega arith) refl refl

abbrev most : List (Run forge)
most = run passed [] ∷ run failed [] ∷ run passed (gate passed ∷ []) ∷ []

-- One passed run of three under a threshold of 33 percent, and two of three under one of 30.
evaluate_mono_example :
    verdict (evaluate (input most (("threshold", float (pos 30_000_000_000)) ∷ []))) ≡ some true
unfolding program
evaluate_mono_example =
    evaluate_mono (input mixed (("threshold", float (pos 33_000_000_000)) ∷ []))
      (input most (("threshold", float (pos 30_000_000_000)) ∷ [])) 33_000_000_000 30_000_000_000
      (omega arith) refl refl refl (omega arith) (omega arith) refl
