-- ===== src/Common/Paths/Normal.antt =====
-- The stacks that a walk ends in, and that a cleaned path is one: to clean it again changes nothing.
use Prim.Native.String.{String, ◌++◌}
use mathlib.Core.Path.{◌≡◌, refl, ap, sym, ◌∙◌, subst}
use mathlib.Core.Logic.{inl, inr, ◌⊎◌, ◌≢◌}
use mathlib.Core.Bool.{Bool, true, false, false≢true}
use mathlib.Core.List.{List, [], ◌∷◌}
use native.Mathlib.Omega.{arith}
use text.Mathlib.TextEquality.{eq_iff}
use text.Mathlib.TextLemmas.{nil-append, cons-append, append-eq-nil_iff}
use forge_ci.Common.Tests.{◌==◌, if◌then◌else◌}
use forge_ci.Common.Lists.{All}
use forge_ci.Common.Paths.{
  slash, split, listed, down, enter, up, walk, render, is_rooted, stack_of, clean,
}
use forge_ci.Common.Paths.Pieces.{IsWhole, split-slash, split-IsWhole, slash-cons}
use forge_ci.Common.Paths.Steps.{IsPlain, walk-++, enter_plain, split-down}

-- A name of a normal stack: it leads down, or it leads up from the very bottom of a path that is not
-- rooted.
abbrev pub IsName : Bool → String → List String → Type 0
IsName rooted x below = IsPlain x ⊎ ((x ≡ "..") × (rooted ≡ false) × All (λ y. y ≡ "..") below)

abbrev pub IsNormal : Bool → List String → Type 0
IsNormal rooted [] = Unit
IsNormal rooted (x ∷ below) = IsName rooted x below × IsWhole slash x × IsNormal rooted below

pub enter_cases :
    (rooted : Bool) (s : String) (stack : List String)
    → (enter rooted s stack ≡ stack)
      ⊎ ((s ≡ "..") × (enter rooted s stack ≡ up rooted stack))
      ⊎ (IsPlain s × (enter rooted s stack ≡ s ∷ stack))
unfolding enter
enter_cases rooted s stack = ground (arith, eq_iff s "", eq_iff s ".", eq_iff s "..")

up-IsNormal :
    (rooted : Bool) (stack : List String)
    → IsNormal rooted stack
    → IsNormal rooted (up rooted stack)
up-IsNormal true [] h = tt
up-IsNormal false [] h = (inr (refl, refl, tt), refl, tt)
up-IsNormal rooted (t ∷ below) (inl plain, whole, h) = ground (arith, eq_iff t "..")
up-IsNormal rooted (t ∷ below) (inr (here, late, all), whole, h) = ground (arith, eq_iff t "..")

enter-IsNormal :
    (rooted : Bool) (s : String) (stack : List String)
    → IsWhole slash s
    → IsNormal rooted stack
    → IsNormal rooted (enter rooted s stack)
enter-IsNormal rooted s stack whole h = elim (enter_cases rooted s stack) [
  | inl e ↦ subst (IsNormal rooted) (sym e) h
  | inr (inl (_, e)) ↦ subst (IsNormal rooted) (sym e) (up-IsNormal rooted stack h)
  | inr (inr (plain, e)) ↦ subst (IsNormal rooted) (sym e) (inl plain, whole, h)
]

walk-IsNormal :
    (rooted : Bool) (ss stack : List String)
    → All (IsWhole slash) ss
    → IsNormal rooted stack
    → IsNormal rooted (walk rooted ss stack)
unfolding walk
walk-IsNormal rooted [] stack all h = h
walk-IsNormal rooted (s ∷ ss) stack all h =
    walk-IsNormal rooted ss (enter rooted s stack) all.1 (enter-IsNormal rooted s stack all.0 h)

pub stack_of-IsNormal : (path : String) → IsNormal (is_rooted path) (stack_of path)
unfolding stack_of
stack_of-IsNormal path =
    walk-IsNormal (is_rooted path) (split slash path) [] (split-IsWhole slash path) tt

enter_name :
    (rooted : Bool) (x : String) (below : List String)
    → IsName rooted x below
    → enter rooted x below ≡ x ∷ below
unfolding enter
enter_name rooted x below (inl plain) = enter_plain rooted x below plain
enter_name rooted x [] (inr (here, late, all)) = rw (here, late) refl
enter_name rooted x (y ∷ below) (inr (here, late, all)) = rw (here, all.0) refl

pub walk-listed-normal :
    (rooted : Bool) (stack : List String)
    → IsNormal rooted stack
    → walk rooted (listed stack) [] ≡ stack
unfolding walk
walk-listed-normal rooted [] h = refl
walk-listed-normal rooted (x ∷ below) h =
    walk-++ rooted (listed below) (x ∷ []) []
    ∙ ap (enter rooted x) (walk-listed-normal rooted below h.2)
    ∙ enter_name rooted x below h.0

IsNormal-IsWhole :
    (rooted : Bool) (stack : List String) → IsNormal rooted stack → All (IsWhole slash) stack
IsNormal-IsWhole rooted [] h = tt
IsNormal-IsWhole rooted (x ∷ below) h = (h.1, IsNormal-IsWhole rooted below h.2)

name_nonempty : (rooted : Bool) (x : String) (below : List String) → IsName rooted x below → x ≢ ""
name_nonempty rooted x below (inl plain) e = ground (arith, eq_iff x "")
name_nonempty rooted x below (inr (here, late, all)) e =
    let two : (".." == "") ≡ true = (eq_iff ".." "").1 (sym here ∙ e) in false≢true two

pub is_rooted-whole : (s : String) → IsWhole slash s → is_rooted s ≡ false
unfolding is_rooted
is_rooted-whole String.[] h = refl
is_rooted-whole (String.◌∷◌ c s) h = ground arith

pub is_rooted-++ : (s t : String) → s ≢ "" → is_rooted (s ++ t) ≡ is_rooted s
unfolding is_rooted
is_rooted-++ String.[] t h = absurd (h refl)
is_rooted-++ (String.◌∷◌ c s) t h = ap is_rooted (cons-append c s t)

not_empty : (s : String) → (s == "") ≡ false → s ≢ ""
not_empty s h e = false≢true (sym h ∙ (eq_iff s "").1 e)

append-nonempty : (s t : String) → s ≢ "" → s ++ t ≢ ""
append-nonempty s t h e = h ((append-eq-nil_iff.0 e).0)

down-nonempty :
    (rooted : Bool) (x : String) (below : List String)
    → IsNormal rooted (x ∷ below)
    → down x below ≢ ""
unfolding down
down-nonempty rooted x [] h = name_nonempty rooted x [] h.0
down-nonempty rooted x (y ∷ below) h =
    append-nonempty (down y below) ("/" ++ x) (down-nonempty rooted y below h.2)

down-unrooted :
    (rooted : Bool) (x : String) (below : List String)
    → IsNormal rooted (x ∷ below)
    → is_rooted (down x below) ≡ false
unfolding down
down-unrooted rooted x [] h = is_rooted-whole x h.1
down-unrooted rooted x (y ∷ below) h =
    is_rooted-++ (down y below) ("/" ++ x) (down-nonempty rooted y below h.2)
    ∙ down-unrooted rooted y below h.2

pub render-rooted :
    (rooted : Bool) (stack : List String)
    → IsNormal rooted stack
    → is_rooted (render rooted stack) ≡ rooted
unfolding render is_rooted
render-rooted true [] h = refl
render-rooted true (x ∷ below) h =
    let opened = slash-cons (down x below) in ap is_rooted opened.2 ∙ opened.1
render-rooted false [] h = refl
render-rooted false (x ∷ below) h = down-unrooted false x below h

split-render :
    (rooted : Bool) (x : String) (below : List String)
    → IsNormal rooted (x ∷ below)
    → split slash (render rooted (x ∷ below))
      ≡ (if rooted then "" ∷ listed (x ∷ below) else listed (x ∷ below))
unfolding render split
split-render true x below h =
    ap (split slash) (sym (nil-append ("/" ++ down x below)))
    ∙ split-slash "" (down x below)
    ∙ ap (λ l. "" ∷ l) (split-down x below (IsNormal-IsWhole true (x ∷ below) h))
split-render false x below h = split-down x below (IsNormal-IsWhole false (x ∷ below) h)

walk-render :
    (rooted : Bool) (stack : List String)
    → IsNormal rooted stack
    → walk rooted (split slash (render rooted stack)) [] ≡ stack
unfolding walk render split enter
walk-render true [] h = refl
walk-render false [] h = refl
walk-render true (x ∷ below) h =
    ap (λ l. walk true l []) (split-render true x below h) ∙ walk-listed-normal true (x ∷ below) h
walk-render false (x ∷ below) h =
    ap (λ l. walk false l []) (split-render false x below h)
    ∙ walk-listed-normal false (x ∷ below) h

-- The stack of a rendered stack.
pub stack_of-render :
    (rooted : Bool) (stack : List String)
    → IsNormal rooted stack
    → stack_of (render rooted stack) ≡ stack
unfolding stack_of
stack_of-render rooted stack h =
    ap (λ r. walk r (split slash (render rooted stack)) []) (render-rooted rooted stack h)
    ∙ walk-render rooted stack h

render-nonempty :
    (rooted : Bool) (stack : List String) → IsNormal rooted stack → render rooted stack ≢ ""
unfolding render
render-nonempty true [] h e = not_empty "/" refl e
render-nonempty true (x ∷ below) h e =
    not_empty "/" refl ((append-eq-nil_iff {p = "/"} {q = down x below}).0 e).0
render-nonempty false [] h e = not_empty "." refl e
render-nonempty false (x ∷ below) h e = down-nonempty false x below h e

pub clean-nonempty : (path : String) → clean path ≢ ""
unfolding clean
clean-nonempty path = render-nonempty (is_rooted path) (stack_of path) (stack_of-IsNormal path)

pub stack_of-clean : (path : String) → stack_of (clean path) ≡ stack_of path
unfolding clean
stack_of-clean path = stack_of-render (is_rooted path) (stack_of path) (stack_of-IsNormal path)
