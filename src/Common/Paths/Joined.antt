-- ===== src/Common/Paths/Joined.antt =====
-- A name and a stack of names joined to a root, and what the root's path to them is.
use Prim.Native.String.{String, ◌++◌}
use mathlib.Core.Path.{◌≡◌, refl, ap, sym, ◌∙◌}
use mathlib.Core.Logic.{inl, ◌≢◌}
use mathlib.Core.Bool.{Bool, true, false}
use mathlib.Core.Option.{some, some_inj}
use mathlib.Core.List.{
  List, [], ◌∷◌, ◌++◌ as ◌++ₗ◌, append-nil as ++ₗ-nil, append_assoc as ++ₗ_assoc,
}
use native.Mathlib.Omega.{arith}
use text.Mathlib.TextEquality.{eq_iff}
use text.Mathlib.TextLemmas.{append_assoc, nil-append}
use forge_ci.Common.Tests.{==_refl}
use forge_ci.Common.Lists.{All, length, length-append}
use forge_ci.Common.Paths.{
  slash, split, listed, down, walk, render, is_rooted, stack_of, glued, clean, join, rel, rel_parts,
  target_parts,
}
use forge_ci.Common.Paths.Pieces.{IsWhole, split-slash, split-whole}
use forge_ci.Common.Paths.Steps.{IsPlain, walk-++, walk-listed, enter_plain, split-down, down-++}
use forge_ci.Common.Paths.Normal.{
  IsNormal, stack_of-IsNormal, stack_of-render, is_rooted-++, render-rooted,
}

-- A stack of names that lead down.
abbrev pub IsDescent : List String → Type 0
IsDescent [] = Unit
IsDescent (x ∷ below) = IsPlain x × IsWhole slash x × IsDescent below

pub IsDescent-IsNormal :
    (rooted : Bool) (names stack : List String)
    → IsDescent names
    → IsNormal rooted stack
    → IsNormal rooted (names ++ₗ stack)
IsDescent-IsNormal rooted [] stack d h = h
IsDescent-IsNormal rooted (x ∷ below) stack d h =
    (inl d.0, d.1, IsDescent-IsNormal rooted below stack d.2 h)

IsDescent-IsPlain : (names : List String) → IsDescent names → All IsPlain names
IsDescent-IsPlain [] d = tt
IsDescent-IsPlain (x ∷ below) d = (d.0, IsDescent-IsPlain below d.2)

IsDescent-IsWhole : (names : List String) → IsDescent names → All (IsWhole slash) names
IsDescent-IsWhole [] d = tt
IsDescent-IsWhole (x ∷ below) d = (d.1, IsDescent-IsWhole below d.2)

-- A path that goes on from a root.
stack_of-slash :
    (root t : String)
    → root ≢ ""
    → stack_of (root ++ ("/" ++ t)) ≡ walk (is_rooted root) (split slash t) (stack_of root)
unfolding stack_of
stack_of-slash root t named =
    ap (λ r. walk r (split slash (root ++ ("/" ++ t))) []) (is_rooted-++ root ("/" ++ t) named)
    ∙ ap (λ l. walk (is_rooted root) l []) (split-slash root t)
    ∙ walk-++ (is_rooted root) (split slash root) (split slash t) []

split-file :
    (dir x : String) (below : List String)
    → IsWhole slash dir
    → IsDescent (x ∷ below)
    → split slash (dir ++ ("/" ++ ("/" ++ down x below))) ≡ dir ∷ "" ∷ listed (x ∷ below)
unfolding split
split-file dir x below whole d =
    split-slash dir ("/" ++ down x below)
    ∙ ap (λ l. l ++ₗ split slash ("/" ++ down x below)) (split-whole slash dir whole)
    ∙ ap (λ l. dir ∷ l)
        (ap (split slash) (sym (nil-append ("/" ++ down x below)))
          ∙ split-slash "" (down x below)
          ∙ ap (λ l. "" ∷ l) (split-down x below (IsDescent-IsWhole (x ∷ below) d)))

-- `filepath.Join` of a root, the name of a directory and a rooted path below it.
pub join-file :
    (root dir x : String) (below : List String)
    → root ≢ ""
    → IsPlain dir
    → IsWhole slash dir
    → IsDescent (x ∷ below)
    → join (root ∷ dir ∷ ("/" ++ down x below) ∷ [])
      ≡ render (is_rooted root) ((x ∷ below) ++ₗ dir ∷ stack_of root)
unfolding join clean glued walk
join-file root dir x below named plain whole d =
    let text = root ++ ("/" ++ (dir ++ ("/" ++ ("/" ++ down x below)))) in
    let same_root = is_rooted-++ root ("/" ++ (dir ++ ("/" ++ ("/" ++ down x below)))) named in
    let stack : stack_of text ≡ (x ∷ below) ++ₗ dir ∷ stack_of root =
      stack_of-slash root (dir ++ ("/" ++ ("/" ++ down x below))) named
      ∙ ap (λ l. walk (is_rooted root) l (stack_of root)) (split-file dir x below whole d)
      ∙ ap (λ s. walk (is_rooted root) ("" ∷ listed (x ∷ below)) s)
          (enter_plain (is_rooted root) dir (stack_of root) plain)
      ∙ walk-listed (is_rooted root) (x ∷ below) (dir ∷ stack_of root)
          (IsDescent-IsPlain (x ∷ below) d) in
    let rendered =
      ap (λ r. render r (stack_of text)) same_root ∙ ap (render (is_rooted root)) stack in
    ground (arith, eq_iff root "", named, rendered)

pub join-name :
    (root dir : String)
    → root ≢ ""
    → IsPlain dir
    → IsWhole slash dir
    → join (root ∷ dir ∷ []) ≡ render (is_rooted root) (dir ∷ stack_of root)
unfolding join clean glued walk
join-name root dir named plain whole =
    let text = root ++ ("/" ++ dir) in
    let same_root = is_rooted-++ root ("/" ++ dir) named in
    let stack : stack_of text ≡ dir ∷ stack_of root =
      stack_of-slash root dir named
      ∙ ap (λ l. walk (is_rooted root) l (stack_of root)) (split-whole slash dir whole)
      ∙ enter_plain (is_rooted root) dir (stack_of root) plain in
    let rendered =
      ap (λ r. render r (stack_of text)) same_root ∙ ap (render (is_rooted root)) stack in
    ground (arith, eq_iff root "", named, rendered)

-- The names below a directory are written after it.
pub render-below :
    (rooted : Bool) (x : String) (below : List String) (dir : String) (stack : List String)
    → render rooted ((x ∷ below) ++ₗ dir ∷ stack)
      ≡ render rooted (dir ∷ stack) ++ ("/" ++ down x below)
unfolding render
render-below true x below dir stack =
    ap (λ s. "/" ++ s) (down-++ x dir below stack)
    ∙ sym (append_assoc "/" (down dir stack) ("/" ++ down x below))
render-below false x below dir stack = down-++ x dir below stack

listed-++ : (xs ys : List String) → listed (xs ++ₗ ys) ≡ listed ys ++ₗ listed xs
listed-++ [] ys = sym (++ₗ-nil (listed ys))
listed-++ (x ∷ xs) ys =
    ap (λ l. l ++ₗ x ∷ []) (listed-++ xs ys) ∙ ++ₗ_assoc (listed ys) (listed xs) (x ∷ [])

listed-cons :
    (x : String) (below : List String)
    → (t : String) × (ts : List String) × (listed (x ∷ below) ≡ t ∷ ts)
listed-cons x [] = (x, [], refl)
listed-cons x (y ∷ below) =
    let (t, ts, e) = listed-cons y below in (t, ts ++ₗ x ∷ [], ap (λ l. l ++ₗ x ∷ []) e)

rel_parts-++ : (xs ys : List String) → rel_parts xs (xs ++ₗ ys) ≡ rel_parts [] ys
unfolding rel_parts
rel_parts-++ [] ys = refl
rel_parts-++ (x ∷ xs) ys = ground (arith, rel_parts-++ xs ys, ==_refl x)

glued-snoc :
    (t : String) (ts : List String) (x : String)
    → glued t (ts ++ₗ x ∷ []) ≡ glued t ts ++ ("/" ++ x)
unfolding glued
glued-snoc t [] x = refl
glued-snoc t (u ∷ ts) x =
    ap (λ s. t ++ ("/" ++ s)) (glued-snoc u ts x)
    ∙ ap (λ s. t ++ s) (sym (append_assoc "/" (glued u ts) ("/" ++ x)))
    ∙ sym (append_assoc t ("/" ++ glued u ts) ("/" ++ x))

rel_parts-listed :
    (x : String) (below : List String) → rel_parts [] (listed (x ∷ below)) ≡ some (down x below)
unfolding rel_parts down
rel_parts-listed x [] = refl
rel_parts-listed x (y ∷ below) =
    let (t, ts, e) = listed-cons y below in
    let before : some (glued t ts) ≡ some (down y below) =
      ap (rel_parts []) (sym e) ∙ rel_parts-listed y below in
    ap (λ l. rel_parts [] (l ++ₗ x ∷ [])) e
    ∙ ap some (glued-snoc t ts x)
    ∙ ap (λ s. some (s ++ ("/" ++ x))) (some_inj.0 before)

target_parts-cons :
    (rooted : Bool) (x : String) (below : List String)
    → target_parts rooted (x ∷ below) ≡ listed (x ∷ below)
target_parts-cons true x below = refl
target_parts-cons false x below = refl

no_loop : (x : String) (below stack : List String) → stack ≡ (x ∷ below) ++ₗ stack → ⊥
no_loop x below stack e =
    let longer = ap length e in omega (arith, longer, length-append below stack)

rel_apart :
    (base target : String)
    → clean base ≢ clean target
    → is_rooted base ≡ is_rooted target
    → rel base target
      ≡ rel_parts (listed (stack_of base)) (target_parts (is_rooted target) (stack_of target))
unfolding rel
rel_apart base target apart same = ground (arith, eq_iff (clean base) (clean target))

-- `filepath.Rel` of what stands below a root.
pub rel-below :
    (root x : String) (below : List String)
    → IsDescent (x ∷ below)
    → rel root (render (is_rooted root) ((x ∷ below) ++ₗ stack_of root)) ≡ some (down x below)
unfolding rel clean
rel-below root x below d =
    let rooted = is_rooted root in
    let names = (x ∷ below) ++ₗ stack_of root in
    let target = render rooted names in
    let normal = IsDescent-IsNormal rooted (x ∷ below) (stack_of root) d (stack_of-IsNormal root) in
    let same_root : is_rooted target ≡ rooted = render-rooted rooted names normal in
    let stack : stack_of target ≡ names = stack_of-render rooted names normal in
    let cleaned : clean target ≡ target =
      ap (λ r. render r (stack_of target)) same_root ∙ ap (render rooted) stack in
    let apart : clean root ≢ clean target = λ e. no_loop x below (stack_of root) (
      sym (stack_of-render rooted (stack_of root) (stack_of-IsNormal root))
      ∙ ap stack_of (e ∙ cleaned)
      ∙ stack) in
    rel_apart root target apart (sym same_root)
    ∙ ap (λ r. rel_parts (listed (stack_of root)) (target_parts r (stack_of target))) same_root
    ∙ ap (λ l. rel_parts (listed (stack_of root)) (target_parts rooted l)) stack
    ∙ ap (rel_parts (listed (stack_of root))) (
        target_parts-cons rooted x (below ++ₗ stack_of root)
        ∙ listed-++ (x ∷ below) (stack_of root))
    ∙ rel_parts-++ (listed (stack_of root)) (listed (x ∷ below))
    ∙ rel_parts-listed x below
