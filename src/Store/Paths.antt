-- ===== src/Store/Paths.antt =====
-- internal/controller/statecontroller/statecontroller.go: where `rootOf` and `pathFor` put a record.
use Prim.Native.String.{count}
use mathlib.Core.Bool.{false≢true}
use forge_ci.Common.{
  String, ℕ, ◌<◌, eq_of_==, ◌≡◌, ◌≢◌, refl, true, false, List, [], ◌∷◌, ◌++◌, Result, ok, err,
  if◌then◌else◌, arith, eq_iff, inl, inr, Bool-cases, subst, ap, sym, ◌∙◌, ◌++ₛ◌, ◌==◌, ◌||◌,
  >>=-eq-ok,
}
use forge_ci.Common.Text.{trim_space, is_blank}
use forge_ci.Common.Paths.{slash, clean, glued, is_rooted, join, render, stack_of, down}
use forge_ci.Common.Paths.Pieces.{occurs, slash-cons}
use forge_ci.Common.Paths.Steps.{IsPlain, down-after}
use forge_ci.Common.Paths.Normal.{IsNormal, stack_of-IsNormal, clean-nonempty}
use forge_ci.Common.Paths.Joined.{IsDescent, join-file, join-name, render-below}
use forge_ci.Types.{Spec, text_at}
use forge_ci.Config.Problems.{is_kebab}
use forge_ci.Store.{
  StoreError, Kinds, no_key, no_path, root_of, kinds_for, dir_of, file_of, path_for,
}
use forge_ci.Store.Kinds.{kinds_for-IsStore, dir_of-kebab, kebab-IsPlain, kebab-IsWhole}
use text.Mathlib.TextLemmas.{nil-append, cons-append, append_assoc, length-append}

IsNormal-IsDescent : (stack : List String) → IsNormal true stack → IsDescent stack
IsNormal-IsDescent [] h = tt
IsNormal-IsDescent (x ∷ below) (inl plain, whole, h) = (plain, whole, IsNormal-IsDescent below h)
IsNormal-IsDescent (x ∷ below) (inr (up, late, all), whole, h) = cc

pub occurs-++ :
    (k : ℕ) (s t : String) → occurs k s ≡ false → occurs k t ≡ false → occurs k (s ++ₛ t) ≡ false
occurs-++ k String.[] t h i = ap (occurs k) (nil-append t) ∙ i
occurs-++ k (String.◌∷◌ c s) t h i =
    ap (occurs k) (cons-append c s t)
    ∙ (let rest = occurs-++ k s t (ground arith) i in ground (arith, rest, h))

-- The names of a key's file: its top name ends in `.json`.
abbrev pub top_of : List String → String
top_of [] = ".json"
top_of (x ∷ below) = x ++ₛ ".json"

abbrev pub rest_of : List String → List String
rest_of [] = []
rest_of (x ∷ below) = below

longer : (x t : String) → count t < 5 → ((x ++ₛ ".json") == t) ≡ false
longer x t short = elim (Bool-cases ((x ++ₛ ".json") == t)) [
  | inl e ↦ absurd (omega (arith, short, length-append x ".json", ap count (eq_of_== e)))
  | inr e ↦ e
]

json-IsPlain : (x : String) → IsPlain (x ++ₛ ".json")
json-IsPlain x =
    ground
      (arith, longer x "" (omega arith), longer x "." (omega arith), longer x ".." (omega arith))

-- The names of a key.
abbrev pub key_names : String → List String
key_names key = stack_of ("/" ++ₛ trim_space key)

rooted-slash : (t : String) → is_rooted ("/" ++ₛ t) ≡ true
unfolding is_rooted
rooted-slash t = let opened = slash-cons t in ap is_rooted opened.2 ∙ opened.1

pub key_names-IsDescent : (key : String) → IsDescent (key_names key)
key_names-IsDescent key = IsNormal-IsDescent (key_names key) (
    subst (λ r. IsNormal r (key_names key)) (rooted-slash (trim_space key))
      (stack_of-IsNormal ("/" ++ₛ trim_space key)))

pub file-IsDescent :
    (names : List String) → IsDescent names → IsDescent (top_of names ∷ rest_of names)
file-IsDescent [] d = (refl, refl, tt)
file-IsDescent (x ∷ below) d = (json-IsPlain x, occurs-++ slash x ".json" d.1 refl, d.2)

render-json :
    (names : List String)
    → render true names ++ₛ ".json" ≡ "/" ++ₛ down (top_of names) (rest_of names)
unfolding render down
render-json [] = refl
render-json (x ∷ below) =
    append_assoc "/" (down x below) ".json" ∙ ap (λ s. "/" ++ₛ s) (down-after x ".json" below)

pub file_of-down :
    (key : String) → file_of key ≡ "/" ++ₛ down (top_of (key_names key)) (rest_of (key_names key))
unfolding file_of clean
file_of-down key =
    ap (λ r. render r (key_names key) ++ₛ ".json") (rooted-slash (trim_space key))
    ∙ render-json (key_names key)

-- The root is not the empty text.
blank-root : (dir : String) → is_blank dir ≡ false → dir ≢ ""
unfolding trim_space
blank-root dir h e = false≢true (sym h ∙ ap is_blank e)

root_named :
    (dir below : String) {root : String}
    → ◌≡◌ {A = Result StoreError String}
        (if is_blank dir
          then err no_path
          else if below == "" || is_rooted dir
          then ok dir
          else ok (join (below ∷ dir ∷ [])))
        (ok root)
    → root ≢ ""
unfolding join
root_named dir below {root} e named =
    let text = below ++ₛ ("/" ++ₛ dir) in
    ground (
      arith,
      eq_iff below "",
      eq_iff dir "",
      clean-nonempty (glued below (dir ∷ [])),
      blank-root dir,
    )

pub root_of-named : (spec : Spec) {root : String} → root_of spec ≡ ok root → root ≢ ""
unfolding root_of
root_of-named spec {root} e = root_named (text_at "path" spec) (text_at "root" spec) e

-- What `pathFor` went through.
pub record Placed (spec : Spec) (kind key path : String) : Type 0 where
  pub root : String
  pub dir : String
  pub known : Kinds
  pub is_root : root_of spec ≡ ok root
  pub is_known : kinds_for spec ≡ ok known
  pub is_dir : dir_of kind known ≡ ok dir
  pub is_path : path ≡ join (root ∷ dir ∷ file_of key ∷ [])

keyed :
    (kind key joined : String) {path : String}
    → ◌≡◌ {A = Result StoreError String}
        (if key == "" then err (no_key kind) else ok joined)
        (ok path)
    → path ≡ joined
keyed kind key joined {path} e = ground (arith, e)

pub path_for-Placed :
    (spec : Spec) (kind key : String) {path : String}
    → path_for spec kind key ≡ ok path
    → Placed spec kind key path
unfolding path_for
path_for-Placed spec kind key e =
    let (root, is_root, e1) = >>=-eq-ok (root_of spec) _ e in
    let (known, is_known, e2) = >>=-eq-ok (kinds_for spec) _ e1 in
    let (dir, is_dir, e3) = >>=-eq-ok (dir_of kind known) _ e2 in
    record {
      root = root;
      dir = dir;
      known = known;
      is_root = is_root;
      is_known = is_known;
      is_dir = is_dir;
      is_path = keyed kind key (join (root ∷ dir ∷ file_of key ∷ [])) e3;
    }

-- A path below the directory of its kind, by names that lead down.
pub record Below (spec : Spec) (kind key path : String) : Type 0 where
  pub root : String
  pub dir : String
  pub known : Kinds
  pub is_root : root_of spec ≡ ok root
  pub is_known : kinds_for spec ≡ ok known
  pub is_dir : dir_of kind known ≡ ok dir
  pub names : List String
  pub is_descent : IsDescent (top_of names ∷ rest_of names)
  pub is_key : names ≡ key_names key
  pub is_path : path ≡ join (root ∷ dir ∷ []) ++ₛ ("/" ++ₛ down (top_of names) (rest_of names))

module _ (spec : Spec) (kind key : String) {path : String}
    (placed : Placed spec kind key path) where
  pub named : placed.root ≢ ""
  named = root_of-named spec placed.is_root

  pub kebab : is_kebab placed.dir ≡ true
  kebab =
      dir_of-kebab kind placed.dir placed.known (kinds_for-IsStore spec placed.is_known)
        placed.is_dir

  abbrev pub file_names : List String
  file_names = top_of (key_names key) ∷ rest_of (key_names key)

  pub descent : IsDescent file_names
  descent = file-IsDescent (key_names key) (key_names-IsDescent key)

  -- The stack of a record's path: its key's names on top of its kind's, and that on the root's.
  pub Placed-render :
      path ≡ render (is_rooted placed.root) (file_names ++ placed.dir ∷ stack_of placed.root)
  Placed-render =
      placed.is_path
      ∙ ap (λ file. join (placed.root ∷ placed.dir ∷ file ∷ [])) (file_of-down key)
      ∙ join-file placed.root placed.dir (top_of (key_names key)) (rest_of (key_names key)) named
          (kebab-IsPlain placed.dir kebab) (kebab-IsWhole placed.dir kebab) descent

  Placed-below :
      path
      ≡ join (placed.root ∷ placed.dir ∷ [])
        ++ₛ ("/" ++ₛ down (top_of (key_names key)) (rest_of (key_names key)))
  Placed-below =
      Placed-render
      ∙ render-below (is_rooted placed.root) (top_of (key_names key)) (rest_of (key_names key))
          placed.dir (stack_of placed.root)
      ∙ ap (λ base. base ++ₛ ("/" ++ₛ down (top_of (key_names key)) (rest_of (key_names key))))
          (sym (
            join-name placed.root placed.dir named (kebab-IsPlain placed.dir kebab)
              (kebab-IsWhole placed.dir kebab)))

  Placed-Below : Below spec kind key path
  Placed-Below = record {
    root = placed.root;
    dir = placed.dir;
    known = placed.known;
    is_root = placed.is_root;
    is_known = placed.is_known;
    is_dir = placed.is_dir;
    names = key_names key;
    is_descent = descent;
    is_key = refl;
    is_path = Placed-below;
  }

-- The path of a record stands below the directory of its kind in the root of the store, whatever the
-- key is: each name between the two leads down.
pub path_for-Below :
    (spec : Spec) (kind key path : String)
    → path_for spec kind key ≡ ok path
    → Below spec kind key path
path_for-Below spec kind key path e = Placed-Below spec kind key (path_for-Placed spec kind key e)
