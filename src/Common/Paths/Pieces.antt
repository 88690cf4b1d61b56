-- ===== src/Common/Paths/Pieces.antt =====
-- Texts cut at a character, and glued.
use Prim.Native.Char.{Char, code}
use Prim.Native.Nat.{ℕ}
use Prim.Native.String.{String, ◌++◌}
use mathlib.Core.Path.{◌≡◌, refl, ap, sym, ◌∙◌, subst}
use mathlib.Core.Logic.{inl, inr}
use mathlib.Core.Bool.{Bool, true, false, ◌||◌}
use mathlib.Core.List.{List, [], ◌∷◌, ◌++◌ as ◌++ₗ◌}
use native.Mathlib.Omega.{arith}
use text.Mathlib.TextLemmas.{cons-append, nil-append}
use forge_ci.Common.Tests.{nat_eq, Bool-cases}
use forge_ci.Common.Lists.{All}
use forge_ci.Common.Paths.{slash, grow, split}

-- The character occurs.
abbrev pub occurs : ℕ → String → Bool
occurs k String.[] = false
occurs k (String.◌∷◌ c s) = nat_eq (code c) k || occurs k s

abbrev pub IsWhole : ℕ → String → Type 0
IsWhole k s = occurs k s ≡ false

pub grow-append :
    (c : Char) (s : String) (ss ts : List String)
    → grow c ((s ∷ ss) ++ₗ ts) ≡ grow c (s ∷ ss) ++ₗ ts
grow-append c s ss ts = refl

-- A text is cut at least once.
pub split-cons : (k : ℕ) (s : String) → (t : String) × (ts : List String) × (split k s ≡ t ∷ ts)
unfolding split
split-cons k String.[] = ("", [], refl)
split-cons k (String.◌∷◌ c s) =
    let (t, ts, e) = split-cons k s in
    elim (Bool-cases (nat_eq (code c) k)) [
      | inl here ↦ ("", split k s, ground arith)
      | inr not_here ↦ (String.◌∷◌ c t, ts, ground (arith, ap (grow c) e))
    ]

pub split-whole : (k : ℕ) (s : String) → IsWhole k s → split k s ≡ s ∷ []
unfolding split
split-whole k String.[] h = refl
split-whole k (String.◌∷◌ c s) h =
    let rest = split-whole k s (ground arith) in ground (arith, ap (grow c) rest)

split-here :
    (k : ℕ) (c : Char) (t : String)
    → nat_eq (code c) k ≡ true
    → split k (String.◌∷◌ c t) ≡ "" ∷ split k t
unfolding split
split-here k c t here = ground arith

pub split-++ :
    (k : ℕ) (c : Char) (s t : String)
    → nat_eq (code c) k ≡ true
    → split k (s ++ String.◌∷◌ c t) ≡ split k s ++ₗ split k t
unfolding split
split-++ k c String.[] t here = ap (split k) (nil-append (String.◌∷◌ c t)) ∙ split-here k c t here
split-++ k c (String.◌∷◌ d s) t here =
    let (u, us, e) = split-cons k s in
    let ih = split-++ k c s t here in
    let grown = ap (grow d) (ih ∙ ap (λ l. l ++ₗ split k t) e) in
    let alone = ap (λ l. grow d l ++ₗ split k t) e in
    ap (split k) (cons-append d s (String.◌∷◌ c t)) ∙ ground (arith, ih, grown, alone)

pub slash-cons :
    (t : String) → (c : Char) × (nat_eq (code c) slash ≡ true) × ("/" ++ t ≡ String.◌∷◌ c t)
slash-cons t = ("/", refl, cons-append "/" "" t ∙ ap (String.◌∷◌ "/") (nil-append t))

pub split-slash : (s t : String) → split slash (s ++ ("/" ++ t)) ≡ split slash s ++ₗ split slash t
split-slash s t =
    let (c, here, e) = slash-cons t in ap (λ u. split slash (s ++ u)) e ∙ split-++ slash c s t here

All-grow :
    (k : ℕ) (c : Char) (ss : List String)
    → nat_eq (code c) k ≡ false
    → All (IsWhole k) ss
    → All (IsWhole k) (grow c ss)
All-grow k c [] h all = (ground arith, tt)
All-grow k c (s ∷ ss) h all = (ground arith, all.1)

pub split-IsWhole : (k : ℕ) (s : String) → All (IsWhole k) (split k s)
unfolding split
split-IsWhole k String.[] = (refl, tt)
split-IsWhole k (String.◌∷◌ c s) = elim (Bool-cases (nat_eq (code c) k)) [
  | inl here ↦
      let cut_here : split k (String.◌∷◌ c s) ≡ "" ∷ split k s = ground arith in
      subst (All (IsWhole k)) (sym cut_here) (refl, split-IsWhole k s)
  | inr not_here ↦
      let kept : split k (String.◌∷◌ c s) ≡ grow c (split k s) = ground arith in
      subst (All (IsWhole k)) (sym kept) (All-grow k c (split k s) not_here (split-IsWhole k s))
]
