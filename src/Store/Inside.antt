-- ===== src/Store/Inside.antt =====
-- internal/controller/statecontroller/statecontroller.go: the path that `commit` hands to git for a
-- record.
use Prim.Native.Char.{code}
use forge_ci.Common.{
  String, ◌≡◌, refl, true, false, List, [], ◌∷◌, ◌++◌, Option, none, some, ok, arith, ap, sym, ◌∙◌,
  ◌++ₛ◌, ok_inj, inl, inr, Bool-cases,
}
use forge_ci.Common.Paths.{is_rooted, stack_of, down, rel, render}
use forge_ci.Common.Paths.Steps.{down-++}
use forge_ci.Common.Paths.Joined.{IsDescent, rel-below}
use forge_ci.Types.{Spec}
use forge_ci.Config.Problems.{is_kebab}
use forge_ci.Store.{root_of, path_for}
use forge_ci.Store.Kinds.{kebab-IsPlain, kebab-IsWhole}
use forge_ci.Store.Files.{inside}
use forge_ci.Store.Paths.{
  Placed, path_for-Placed, Placed-render, descent, kebab, top_of, rest_of, key_names,
}
use mathlib.Core.Option.{some_inj}
use text.Mathlib.TextEquality.{starts_with_iff}
use text.Mathlib.TextLemmas.{cons-append, head-eq_of_cons-eq}
use text.Mathlib.Text.{starts_with}

pub IsDescent-snoc :
    (names : List String) (dir : String)
    → IsDescent names
    → IsDescent (dir ∷ [])
    → IsDescent (names ++ dir ∷ [])
IsDescent-snoc [] dir d e = e
IsDescent-snoc (x ∷ below) dir d e = (d.0, d.1, IsDescent-snoc below dir d.2 e)

pub snoc_before :
    (names stack : List String) (dir : String) → names ++ dir ∷ stack ≡ (names ++ dir ∷ []) ++ stack
snoc_before [] stack dir = refl
snoc_before (x ∷ below) stack dir = ap (λ l. x ∷ l) (snoc_before below stack dir)

-- A name in kebab case does not begin with two dots, whatever follows it.
kebab-inward : (dir t : String) → is_kebab dir ≡ true → starts_with (dir ++ₛ t) ".." ≡ false
unfolding is_kebab
kebab-inward String.[] t h = cc
kebab-inward (String.◌∷◌ c s) t h = elim (Bool-cases (starts_with (String.◌∷◌ c s ++ₛ t) "..")) [
  | inl e ↦
      let (u, same) = (starts_with_iff (String.◌∷◌ c s ++ₛ t) "..").0 e in
      let first = head-eq_of_cons-eq (sym (cons-append "." "." u) ∙ same ∙ cons-append c s t) in
      let dot = ap code first in ground (arith, dot)
  | inr e ↦ e
]

below_root :
    (spec : Spec) (kind key : String) {path : String} (placed : Placed spec kind key path)
    → rel placed.root path
      ≡ some (placed.dir ++ₛ ("/" ++ₛ down (top_of (key_names key)) (rest_of (key_names key))))
unfolding down
below_root spec kind key placed =
    let x = top_of (key_names key) in
    let below = rest_of (key_names key) in
    let whole = kebab-IsWhole placed.dir (kebab spec kind key placed) in
    let plain = kebab-IsPlain placed.dir (kebab spec kind key placed) in
    let all =
      IsDescent-snoc (x ∷ below) placed.dir (descent spec kind key placed) (plain, whole, tt) in
    ap (rel placed.root) (Placed-render spec kind key placed)
    ∙ ap (λ l. rel placed.root (render (is_rooted placed.root) l))
        (snoc_before (x ∷ below) (stack_of placed.root) placed.dir)
    ∙ rel-below placed.root x (below ++ placed.dir ∷ []) all
    ∙ ap some (down-++ x placed.dir below [])

-- `inside` of a path that does not lead up.
inside_ok :
    (root target : String) (found : Option String) (path : String)
    → found ≡ some path
    → starts_with path ".." ≡ false
    → inside root target found ≡ ok path
unfolding inside
inside_ok root target none path e inward = cc
inside_ok root target (some p) path e inward =
    ground (arith, ap (λ s. starts_with s "..") (some_inj.0 e), some_inj.0 e, inward)

-- `commit` never refuses the file of a record as outside the root of the store: git is handed the
-- path that leads from the root to it.
pub path_for-inside :
    (spec : Spec) (kind key root path : String)
    → root_of spec ≡ ok root
    → path_for spec kind key ≡ ok path
    → (relative : String) × (inside root path (rel root path) ≡ ok relative)
path_for-inside spec kind key root path is_root e =
    let placed = path_for-Placed spec kind key e in
    let same : placed.root ≡ root = ok_inj (sym placed.is_root ∙ is_root) in
    let relative =
      placed.dir ++ₛ ("/" ++ₛ down (top_of (key_names key)) (rest_of (key_names key))) in
    (
      relative,
      inside_ok root path (rel root path) relative
          (ap (λ r. rel r path) (sym same) ∙ below_root spec kind key placed)
          (kebab-inward placed.dir _ (kebab spec kind key placed)),
    )
