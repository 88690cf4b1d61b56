-- ===== src/Promotion/Threshold.antt =====
-- internal/controller/promotioncontroller/promotioncontroller.go: when a stage advances.
use forge_ci.Common.{
  ℕ, ◌+◌, ◌*◌, ◌≤◌, ◌<◌, ◌≡◌, ◌≢◌, refl, Bool, true, false, ◌&&◌, List, [], ◌∷◌, Option, none, some,
  not, Result, ok, err, ◌==◌, ltb, nat_eq, lt→ltb, length, count_by, count_by-lt, count_by_all,
  every, lookup, arith, All, Bool-cases, inl, inr, eq_iff, sym, ◌∙◌, ap,
}
use forge_ci.Types.{ForgeTypes, Run, GateResult, is_passed, Spec, PromotionInput, PromotionOutput}
use forge_ci.Promotion.{
  PromotionError, billion, threshold_of, float_threshold, first_blocking_gate, counts, evaluate,
}

-- Every gate answered under the alias that the pipeline gives it, which is no empty text.
abbrev pub IsNamed : {f : ForgeTypes} → Run f → Type 0
IsNamed run = All (λ gate. gate.alias ≢ "") run.gates

-- The run passed, and so did each of its gates.
abbrev pub all_passed : {f : ForgeTypes} → Run f → Bool
all_passed run = is_passed run.status && every (λ gate. is_passed gate.status) run.gates

first_blocking_gate-passed :
    (gates : List GateResult)
    → All (λ gate. gate.alias ≢ "") gates
    → (first_blocking_gate gates == "") ≡ every (λ gate. is_passed gate.status) gates
unfolding first_blocking_gate
first_blocking_gate-passed [] h = refl
first_blocking_gate-passed (gate ∷ gates) h =
    ground (arith, h.0, eq_iff gate.alias "", first_blocking_gate-passed gates h.1)

module _ {f : ForgeTypes} where
  counts-all_passed : (run : Run f) → IsNamed run → counts run ≡ all_passed run
  unfolding counts
  counts-all_passed run h =
      ap (λ b. is_passed run.status && b) (first_blocking_gate-passed run.gates h)

  every_congr :
      (p q : Run f → Bool) (xs : List (Run f)) → All (λ r. p r ≡ q r) xs → every p xs ≡ every q xs
  every_congr p q [] h = refl
  every_congr p q (x ∷ xs) h = ground (arith, h.0, every_congr p q xs h.1)

  counts-All : (runs : List (Run f)) → All IsNamed runs → All (λ r. counts r ≡ all_passed r) runs
  counts-All [] h = tt
  counts-All (x ∷ xs) h = (counts-all_passed x h.0, counts-All xs h.1)

-- Whether the promotion advances the stage; `none` where it fails.
abbrev pub verdict : Result PromotionError PromotionOutput → Option Bool
verdict (ok out) = some out.advance
verdict (err e) = none

threshold_of-le : (spec : Spec) (bar : ℕ) → threshold_of spec ≡ ok bar → bar ≤ 100 * billion
unfolding threshold_of float_threshold
threshold_of-le spec bar h = ground arith

not-not : (b : Bool) → not (not b) ≡ b
not-not b = ground arith

-- The code's comparison at the default bar, for `p` passed runs of `n`.
bar_all : (p n : ℕ) → p ≡ n → ltb (p * 100 * billion + n) (100 * billion * n) ≡ false
bar_all p n e = ground arith

bar_short : (p n : ℕ) → p < n → n < billion → ltb (p * 100 * billion + n) (100 * billion * n) ≡ true
bar_short p n h k = lt→ltb _ _ (omega arith)

scaled-le : (a b n : ℕ) → a ≤ b → a * n ≤ b * n
scaled-le a b n h = grind arith

not-ltb : (a b : ℕ) → b ≤ a → ltb a b ≡ false
not-ltb a b h = ground arith

not-ltb→le : (a b : ℕ) → some (not (ltb a b)) ≡ some true → b ≤ a
not-ltb→le a b h = ground arith

module _ {f : ForgeTypes} where
  evaluate_bar :
      (input : PromotionInput f) (bar : ℕ)
      → 0 < length input.runs
      → threshold_of input.spec ≡ ok bar
      → verdict (evaluate input)
        ≡ some (
            not (
              ltb
                (count_by counts input.runs * 100 * billion + length input.runs)
                (bar * length input.runs)))
  unfolding evaluate
  evaluate_bar input bar h e =
      let nonzero : nat_eq (length input.runs) 0 ≡ false = ground arith in
      elim (Bool-cases (
        ltb (count_by counts input.runs * 100 * billion + length input.runs)
          (bar * length input.runs))) [
            | inl low ↦ rw (nonzero, e, low)
            | inr high ↦ rw (nonzero, e, high)
          ]

  -- With no threshold in the spec, a stage with runs, fewer than a thousand million, whose gates have
  -- names, advances exactly when every run and every gate of it passed: the tolerance in the
  -- comparison lets no failure through.
  pub evaluate-every :
      (input : PromotionInput f)
      → 0 < length input.runs
      → length input.runs < billion
      → All IsNamed input.runs
      → lookup "threshold" input.spec ≡ none
      → verdict (evaluate input) ≡ some (every all_passed input.runs)
  unfolding threshold_of
  evaluate-every input nonempty short named default =
      let same = every_congr counts all_passed input.runs (counts-All input.runs named) in
      let total = length input.runs in
      evaluate_bar input (100 * billion) nonempty (rw (default, threshold_of))
      ∙ ap some (
          ap not (test (every counts input.runs) refl) ∙ (not-not (every counts input.runs) ∙ same))
    where
      test :
          (b : Bool)
          → every counts input.runs ≡ b
          → ltb
              (count_by counts input.runs * 100 * billion + length input.runs)
              (100 * billion * length input.runs)
            ≡ not b
      test true e = bar_all _ _ (count_by_all counts input.runs e)
      test false e = bar_short _ _ (count_by-lt counts input.runs e) short

  -- Whatever threshold the spec sets: if it is one that the engine accepts, and there is a run, a
  -- stage all of whose runs count as passed advances.
  pub evaluate-all_counted :
      (input : PromotionInput f) (bar : ℕ)
      → 0 < length input.runs
      → threshold_of input.spec ≡ ok bar
      → every counts input.runs ≡ true
      → verdict (evaluate input) ≡ some true
  evaluate-all_counted input bar nonempty e all =
      let le =
        scaled-le bar (100 * billion) (length input.runs) (threshold_of-le input.spec bar e) in
      evaluate_bar input bar nonempty e
      ∙ ap (λ b. some (not b)) (not-ltb _ _ (omega (arith, le, count_by_all counts input.runs all)))

  -- More passed runs or a lower bar never hold a stage back: of two inputs with as many runs, if
  -- the first advances, the second does, when at least as many of its runs count as passed and its
  -- threshold is not higher.
  pub evaluate_mono :
      (a b : PromotionInput f) (bar_a bar_b : ℕ)
      → 0 < length a.runs
      → length b.runs ≡ length a.runs
      → threshold_of a.spec ≡ ok bar_a
      → threshold_of b.spec ≡ ok bar_b
      → bar_b ≤ bar_a
      → count_by counts a.runs ≤ count_by counts b.runs
      → verdict (evaluate a) ≡ some true
      → verdict (evaluate b) ≡ some true
  evaluate_mono a b bar_a bar_b nonempty same ea eb bars counted advances =
      let reached = not-ltb→le _ _ (sym (evaluate_bar a bar_a nonempty ea) ∙ advances) in
      let le = scaled-le bar_b bar_a (length a.runs) bars in
      evaluate_bar b bar_b (omega arith) eb
      ∙ ap (λ t. some (not t)) (not-ltb _ _ (rw same (omega (arith, reached, le))))
