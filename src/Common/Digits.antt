-- ===== src/Common/Digits.antt =====
-- Decimal text of numbers, as Go's `%d` prints them, and its reading back.
use Prim.Native.Char.{code}
use Prim.Native.Nat.{ℕ, zero, suc, ◌+◌, ◌-◌, ◌*◌, ◌/◌, ◌%◌, ◌≤◌, ◌<◌}
use Prim.Native.String.{String, ◌++◌ as ◌++ₛ◌}
use mathlib.Core.Path.{◌≡◌, refl, ◌∙◌, ap}
use mathlib.Core.Bool.{true, ◌&&◌}
use mathlib.Core.List.{List, [], ◌∷◌, ◌++◌}
use native.Mathlib.Omega.{arith}
use text.Mathlib.TextLemmas.{nil-append, cons-append, append_assoc}
use native.Mathlib.Nat.{le_refl}
use forge_ci.Common.Tests.{leb, nat_eq, if◌then◌else◌, Bool-cases}
use mathlib.Core.Logic.{◌⊎◌, inl, inr}

-- The bytes of a text of ASCII characters.
abbrev pub codes : String → List ℕ
codes String.[] = []
codes (String.◌∷◌ c s) = code c ∷ codes s

abbrev digit_text : ℕ → String
digit_text d =
    if nat_eq d 0
    then "0"
    else if nat_eq d 1
    then "1"
    else if nat_eq d 2
    then "2"
    else if nat_eq d 3
    then "3"
    else if nat_eq d 4
    then "4"
    else if nat_eq d 5
    then "5"
    else if nat_eq d 6
    then "6"
    else if nat_eq d 7
    then "7"
    else if nat_eq d 8
    then "8"
    else "9"

-- The digits of a positive number, in front of a text. The number itself is fuel enough.
digits_before : ℕ → ℕ → String → String
digits_before zero n rest = rest
digits_before (suc fuel) n rest =
    let more = digits_before fuel (n / 10) (digit_text (n % 10) ++ₛ rest) in
    if nat_eq n 0 then rest else more

-- `%d`.
unfoldable pub print_nat : ℕ → String
unfolding digits_before
print_nat n = if nat_eq n 0 then "0" else digits_before n n ""

-- Digits from the front: the number that they spell behind `n`, and what follows them.
unfoldable pub read_digits : ℕ → List ℕ → ℕ × List ℕ
read_digits n [] = (n, [])
read_digits n (c ∷ cs) =
    let rest = read_digits (n * 10 + (c - b'0')) cs in
    if leb b'0' c && leb c b'9' then rest else (n, c ∷ cs)

pub codes-append : (s t : String) → codes (s ++ₛ t) ≡ codes s ++ codes t
codes-append String.[] t = ap codes (nil-append t)
codes-append (String.◌∷◌ c s) t =
    ap codes (cons-append c s t) ∙ ap (λ l. code c ∷ l) (codes-append s t)

digit_code : (d : ℕ) → d < 10 → codes (digit_text d) ≡ (b'0' + d) ∷ []
digit_code zero h = refl
digit_code (suc zero) h = refl
digit_code (suc (suc zero)) h = refl
digit_code (suc (suc (suc zero))) h = refl
digit_code (suc (suc (suc (suc zero)))) h = refl
digit_code (suc (suc (suc (suc (suc zero))))) h = refl
digit_code (suc (suc (suc (suc (suc (suc zero)))))) h = refl
digit_code (suc (suc (suc (suc (suc (suc (suc zero))))))) h = refl
digit_code (suc (suc (suc (suc (suc (suc (suc (suc zero)))))))) h = refl
digit_code (suc (suc (suc (suc (suc (suc (suc (suc (suc zero))))))))) h = refl
digit_code (suc (suc (suc (suc (suc (suc (suc (suc (suc (suc d)))))))))) h = absurd (omega arith)

codes-digit :
    (d : ℕ) (rest : String) → d < 10 → codes (digit_text d ++ₛ rest) ≡ (b'0' + d) ∷ codes rest
codes-digit d rest h = codes-append (digit_text d) rest ∙ ap (λ l. l ++ codes rest) (digit_code d h)

digit_low : (d : ℕ) → leb b'0' (b'0' + d) ≡ true
digit_low d = ground arith

digit_high : (d : ℕ) → d < 10 → leb (b'0' + d) b'9' ≡ true
digit_high d h = ground arith

-- Reading the last digit of a number after the digits before it.
read_last : (n : ℕ) (cs : List ℕ) → read_digits (n / 10) ((b'0' + n % 10) ∷ cs) ≡ read_digits n cs
unfolding read_digits
read_last n cs =
    let e : n / 10 * 10 + (b'0' + n % 10 - b'0') ≡ n = omega arith in
    rw (digit_low (n % 10), digit_high (n % 10) (omega arith), e) refl

-- The digits of a positive number, read behind nothing, give the number back.
read-digits_before :
    (fuel n : ℕ) (rest : String)
    → n ≤ fuel
    → read_digits 0 (codes (digits_before fuel n rest)) ≡ read_digits n (codes rest)
unfolding digits_before
read-digits_before zero n rest h = let e : n ≡ 0 = omega arith in rw e refl
read-digits_before (suc fuel) n rest h = elim (Bool-cases (nat_eq n 0)) [
  | inl e ↦ let z : n ≡ 0 = ground arith in rw (e, z) refl
  | inr e ↦ rw e (
      read-digits_before fuel (n / 10) (digit_text (n % 10) ++ₛ rest) (ground arith)
      ∙ (ap (read_digits (n / 10)) (codes-digit (n % 10) rest (omega arith))
          ∙ read_last n (codes rest)))
]

-- A text that begins with a digit other than zero.
pub record BeginsPositive (cs : List ℕ) : Type 0 where
  pub head : ℕ
  pub tail : List ℕ
  pub split : cs ≡ head ∷ tail
  pub low : b'1' ≤ head
  pub high : head ≤ b'9'

digits_before_zero : (fuel : ℕ) (rest : String) → digits_before fuel 0 rest ≡ rest
unfolding digits_before
digits_before_zero zero rest = refl
digits_before_zero (suc fuel) rest = refl

digits_before-BeginsPositive :
    (fuel n : ℕ) (rest : String)
    → n ≤ fuel
    → 0 < n
    → BeginsPositive (codes (digits_before fuel n rest))
unfolding digits_before
digits_before-BeginsPositive zero n rest h k = absurd (omega arith)
digits_before-BeginsPositive (suc fuel) n rest h k = elim (Bool-cases (nat_eq n 0)) [
  | inl e ↦ absurd (ground arith)
  | inr e ↦ rw e (elim (Bool-cases (nat_eq (n / 10) 0)) [
    | inl z ↦
        let q : n / 10 ≡ 0 = ground arith in
        record {
          head = b'0' + n % 10;
          tail = codes rest;
          split = rw (q, digits_before_zero fuel) (codes-digit (n % 10) rest (omega arith));
          low = omega arith;
          high = omega arith;
        }
    | inr z ↦
        digits_before-BeginsPositive fuel (n / 10) (digit_text (n % 10) ++ₛ rest) (ground arith)
          (ground arith)
  ])
]

digits_before-append :
    (fuel n : ℕ) (rest more : String)
    → digits_before fuel n rest ++ₛ more ≡ digits_before fuel n (rest ++ₛ more)
unfolding digits_before
digits_before-append zero n rest more = refl
digits_before-append (suc fuel) n rest more =
    let step = digits_before-append fuel (n / 10) (digit_text (n % 10) ++ₛ rest) more in
    elim (Bool-cases (nat_eq n 0)) [
      | inl e ↦ rw e
      | inr e ↦
          rw e
            (step ∙ ap (digits_before fuel (n / 10)) (append_assoc (digit_text (n % 10)) rest more))
    ]

-- What the printed number in front of a text is read back as, first by its first digit.
pub print_nat_cases :
    (n : ℕ) (rest : String)
    → ((n ≡ 0) × (codes (print_nat n ++ₛ rest) ≡ b'0' ∷ codes rest))
      ⊎ (BeginsPositive (codes (print_nat n ++ₛ rest))
          × (read_digits 0 (codes (print_nat n ++ₛ rest)) ≡ read_digits n (codes rest)))
unfolding print_nat
print_nat_cases n rest = elim (Bool-cases (nat_eq n 0)) [
  | inl e ↦ inl (ground arith, rw e (codes-append "0" rest))
  | inr e ↦
      let together = digits_before-append n n "" rest ∙ ap (digits_before n n) (nil-append rest) in
      inr (
        rw (e, together) (digits_before-BeginsPositive n n rest (le_refl n) (ground arith)),
        rw (e, together) (read-digits_before n n rest (le_refl n)),
      )
]
