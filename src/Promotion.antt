-- ===== src/Promotion.antt =====
-- internal/controller/promotioncontroller/promotioncontroller.go: the promotion that advances a
-- stage on the share of its runs that passed. Percentages are exact here, in billionths, where the
-- code has `float64`: two shares that differ by less than its rounding, about 10^-13 percent, are told
-- apart here and not there. Below a thousand million runs one failure is worth 10^-7 percent, which is
-- more than the tolerance and the rounding together.
pub mod Threshold
mod Tests
use forge_ci.Common.{
  String, ℕ, zero, suc, ◌+◌, ◌-◌, ◌*◌, ◌/◌, ◌%◌, Bool, true, false, ◌&&◌, ◌||◌, List, [], ◌∷◌,
  Option, none, some, Result, ok, err, ◌>>=◌, ltb, nat_eq, ◌==◌, length, count_by, every, lookup,
  if◌then◌else◌, ◌++ₛ◌,
}
use forge_ci.Common.Digits.{print_nat}
use forge_ci.Common.Text.{quote}
use forge_ci.Types.{
  ForgeTypes, Run, GateResult, Status, is_passed, ℤ, pos, negsuc, Value, Spec, float, int,
  PromotionInput, PromotionOutput,
}

-- `ErrThreshold`.
pub data PromotionError : Type 0 where
  threshold : PromotionError

abbrev pub billion : ℕ
billion = 1_000_000_000

unfoldable pub float_threshold : ℤ → Result PromotionError ℕ
float_threshold (negsuc n) = err threshold
float_threshold (pos v) = if ltb (100 * billion) v then err threshold else ok v

-- A whole number, in billionths.
unfoldable pub float_of : ℤ → ℤ
float_of (pos n) = pos (n * billion)
float_of (negsuc n) = negsuc (n * billion + (billion - 1))

unfoldable pub threshold_of : Spec → Result PromotionError ℕ
threshold_of spec = elim (lookup "threshold" spec) [
  | none ↦ ok (100 * billion)
  | some (float v) ↦ float_threshold v
  | some (int v) ↦ float_threshold (float_of v)
  | some _ ↦ err threshold
]

-- `firstBlockingGate(run) == ""`: the alias of the first gate that did not pass, and none if that
-- alias is empty.
unfoldable pub first_blocking_gate : List GateResult → String
first_blocking_gate [] = ""
first_blocking_gate (gate ∷ gates) =
    let rest = first_blocking_gate gates in if is_passed gate.status then rest else gate.alias

-- `%.0f`: a ratio rounded to a whole number, halves to the even one.
unfoldable pub rounded : ℕ → ℕ → ℕ
rounded n d =
    let q = n / d in
    let twice = 2 * (n % d) in
    if ltb d twice || (nat_eq d twice && nat_eq (q % 2) 1) then q + 1 else q

module _ {f : ForgeTypes} where
  unfoldable pub counts : Run f → Bool
  counts run = is_passed run.status && first_blocking_gate run.gates == ""

  -- `percent+1e-9 < threshold`, multiplied out.
  unfoldable pub evaluate : PromotionInput f → Result PromotionError PromotionOutput
  evaluate input =
      let total = length input.runs in
      let passed = count_by counts input.runs in
      if nat_eq total 0
      then ok (record {
        advance = false;
        reason = "stage " ++ₛ quote input.stage ++ₛ " has no runs yet";
      })
      else do
        bar ← threshold_of input.spec
        let so_far =
            "stage "
            ++ₛ quote input.stage
            ++ₛ " passed "
            ++ₛ print_nat passed
            ++ₛ " of "
            ++ₛ print_nat total
            ++ₛ " substages"
        if ltb (passed * 100 * billion + total) (bar * total)
            then ok (record {
              advance = false;
              reason =
                  so_far
                  ++ₛ ", which is "
                  ++ₛ print_nat (rounded (passed * 100) total)
                  ++ₛ " percent, below the "
                  ++ₛ print_nat (rounded bar billion)
                  ++ₛ " percent needed";
            })
            else ok (record { advance = true; reason = so_far })
