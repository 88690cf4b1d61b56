-- ===== src/Store/Under.antt =====
-- internal/controller/statecontroller/statecontroller.go: the files of a store stand below its root.
use forge_ci.Common.{String, ◌≡◌, ◌≢◌, refl, [], ◌∷◌, ◌++◌, ok, ok_inj, ap, sym, ◌∙◌, subst}
use forge_ci.Common.Paths.{is_rooted, render, stack_of, join}
use forge_ci.Common.Paths.Joined.{join-name}
use forge_ci.Types.{Spec}
use forge_ci.Store.{root_of, path_for}
use forge_ci.Store.Kinds.{kebab-IsPlain, kebab-IsWhole}
use forge_ci.Store.Disk.{Under}
use forge_ci.Store.Inside.{IsDescent-snoc, snoc_before}
use forge_ci.Store.Paths.{
  Placed, path_for-Placed, Placed-render, file_names, descent, kebab, root_of-named,
}

Placed-Under :
    (spec : Spec) (kind key : String) {path : String} (placed : Placed spec kind key path)
    → Under placed.root path
Placed-Under spec kind key placed =
    let names = file_names spec kind key placed in
    let plain = kebab-IsPlain placed.dir (kebab spec kind key placed) in
    let whole = kebab-IsWhole placed.dir (kebab spec kind key placed) in
    (
      names ++ placed.dir ∷ [],
      IsDescent-snoc names placed.dir (descent spec kind key placed) (plain, whole, tt),
      Placed-render spec kind key placed
          ∙ ap (render (is_rooted placed.root))
              (snoc_before names (stack_of placed.root) placed.dir),
    )

pub path_for-Under :
    (spec : Spec) (kind key root path : String)
    → root_of spec ≡ ok root
    → path_for spec kind key ≡ ok path
    → Under root path
path_for-Under spec kind key root path is_root e =
    let placed = path_for-Placed spec kind key e in
    let same : placed.root ≡ root = ok_inj (sym placed.is_root ∙ is_root) in
    subst (λ r. Under r path) same (Placed-Under spec kind key placed)

pub attributes-Under :
    (root : String) → root ≢ "" → Under root (join (root ∷ ".gitattributes" ∷ []))
attributes-Under root filled =
    (".gitattributes" ∷ [], (refl, refl, tt), join-name root ".gitattributes" filled refl refl)

pub root_of-Under :
    (spec : Spec) (root : String)
    → root_of spec ≡ ok root
    → Under root (join (root ∷ ".gitattributes" ∷ []))
root_of-Under spec root e = attributes-Under root (root_of-named spec e)
