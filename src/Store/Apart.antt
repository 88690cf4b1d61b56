-- ===== src/Store/Apart.antt =====
-- internal/controller/statecontroller/statecontroller.go: two records in one file.
use forge_ci.Common.{
  String, eq_iff, ◌≡◌, ◌≢◌, refl, List, [], ◌∷◌, ◌++◌, ok, arith, ap, sym, ◌∙◌, ok_inj, inl, length,
  length-append,
}
use forge_ci.Common.Paths.{is_rooted, stack_of, clean, join}
use forge_ci.Common.Paths.Steps.{IsPlain}
use forge_ci.Common.Paths.Normal.{IsNormal, stack_of-render, stack_of-IsNormal, stack_of-clean}
use forge_ci.Common.Paths.Joined.{IsDescent, IsDescent-IsNormal, join-name}
use forge_ci.Types.{Spec}
use forge_ci.Store.{Kinds, dir_of, kinds_for, path_for, root_of}
use forge_ci.Store.Kinds.{kebab-IsPlain, kebab-IsWhole}
use forge_ci.Store.Paths.{
  Placed, path_for-Placed, Placed-render, file_names, descent, kebab, named, top_of, rest_of,
  key_names, key_names-IsDescent,
}
use text.Mathlib.TextLemmas.{append_cancel_right, nil-append}

module _ {A : Type 0} where
  cons_inj : {x y : A} {xs ys : List A} → ◌≡◌ {A = List A} (x ∷ xs) (y ∷ ys) → (x ≡ y) × (xs ≡ ys)
  cons_inj e = (cc, cc)

  -- Two lists that end alike are alike before it.
  same_before :
      (xs ys : List A) (a b : A) (zs : List A) → xs ++ a ∷ zs ≡ ys ++ b ∷ zs → (xs ≡ ys) × (a ≡ b)
  same_before [] [] a b zs e = (refl, (cons_inj e).0)
  same_before [] (y ∷ ys) a b zs e = absurd (omega (arith, ap length e, length-append ys (b ∷ zs)))
  same_before (x ∷ xs) [] a b zs e = absurd (omega (arith, ap length e, length-append xs (a ∷ zs)))
  same_before (x ∷ xs) (y ∷ ys) a b zs e =
      let (first, others) = same_before xs ys a b zs (cons_inj e).1 in (cc, others)

stack_of-Placed :
    (spec : Spec) (kind key : String) {path : String} (placed : Placed spec kind key path)
    → stack_of path ≡ file_names spec kind key placed ++ placed.dir ∷ stack_of placed.root
stack_of-Placed spec kind key placed =
    let rooted = is_rooted placed.root in
    let base : IsNormal rooted (placed.dir ∷ stack_of placed.root) = (
      inl (kebab-IsPlain placed.dir (kebab spec kind key placed)),
      kebab-IsWhole placed.dir (kebab spec kind key placed),
      stack_of-IsNormal placed.root,
    ) in
    ap stack_of (Placed-render spec kind key placed)
    ∙ stack_of-render rooted (file_names spec kind key placed ++ placed.dir ∷ stack_of placed.root)
        (IsDescent-IsNormal rooted (file_names spec kind key placed)
          (placed.dir ∷ stack_of placed.root) (descent spec kind key placed) base)

clean_stack : (a b : String) → clean a ≡ clean b → stack_of a ≡ stack_of b
clean_stack a b e = sym (stack_of-clean a) ∙ ap stack_of e ∙ stack_of-clean b

not_empty : (x : String) → IsPlain x → x ≢ ""
not_empty x plain e = ground (arith, eq_iff x "", e)

-- Keys whose files have the same names have the same names.
same_names :
    (xs ys : List String)
    → IsDescent xs
    → IsDescent ys
    → ◌≡◌ {A = List String} (top_of xs ∷ rest_of xs) (top_of ys ∷ rest_of ys)
    → xs ≡ ys
same_names [] [] d e h = refl
same_names [] (y ∷ ys) d e h = absurd (
    not_empty y e.0
      (append_cancel_right y "" ".json" (sym (cons_inj h).0 ∙ sym (nil-append ".json"))))
same_names (x ∷ xs) [] d e h =
    absurd (
      not_empty x d.0
        (append_cancel_right x "" ".json" ((cons_inj h).0 ∙ sym (nil-append ".json"))))
same_names (x ∷ xs) (y ∷ ys) d e h =
    let (first, others) = cons_inj h in let same = append_cancel_right x y ".json" first in cc

-- Two records of a store are in one file only where their kinds have one directory and their keys,
-- cleaned, have the same names.
pub path_for-injective :
    (spec : Spec) (known : Kinds) (kind other key second path file : String)
    → kinds_for spec ≡ ok known
    → path_for spec kind key ≡ ok path
    → path_for spec other second ≡ ok file
    → clean path ≡ clean file
    → (key_names key ≡ key_names second) × (dir_of kind known ≡ dir_of other known)
path_for-injective spec known kind other key second path file is_known first last same =
    let p = path_for-Placed spec kind key first in
    let q = path_for-Placed spec other second last in
    let same_root : q.root ≡ p.root = ok_inj (sym q.is_root ∙ p.is_root) in
    let (names, dirs) =
      same_before (file_names spec kind key p) (file_names spec other second q) p.dir q.dir
        (stack_of p.root)
        (sym (stack_of-Placed spec kind key p)
          ∙ clean_stack path file same
          ∙ stack_of-Placed spec other second q
          ∙ ap (λ r. file_names spec other second q ++ q.dir ∷ stack_of r) same_root) in
    (
      same_names (key_names key) (key_names second) (key_names-IsDescent key)
          (key_names-IsDescent second) names,
      ap (dir_of kind) (ok_inj (sym is_known ∙ p.is_known))
          ∙ p.is_dir
          ∙ ap ok dirs
          ∙ sym q.is_dir
          ∙ ap (dir_of other) (ok_inj (sym q.is_known ∙ is_known)),
    )

longer :
    (names : List String) (dir a : String) (stack : List String)
    → (length names ≡ 0 → ⊥)
    → a ∷ stack ≡ names ++ dir ∷ stack
    → ⊥
longer names dir a stack some_names e =
    absurd (some_names (omega (arith, ap length e, length-append names (dir ∷ stack))))

-- No record is in the file of the attributes.
pub attributes-apart :
    (spec : Spec) (kind key root path : String)
    → root_of spec ≡ ok root
    → path_for spec kind key ≡ ok path
    → clean (join (root ∷ ".gitattributes" ∷ [])) ≢ clean path
attributes-apart spec kind key root path is_root e same =
    let p = path_for-Placed spec kind key e in
    let same_root : p.root ≡ root = ok_inj (sym p.is_root ∙ is_root) in
    let here = named spec kind key p in
    let attributes = join (p.root ∷ ".gitattributes" ∷ []) in
    let stack : stack_of attributes ≡ ".gitattributes" ∷ stack_of p.root =
      ap stack_of (join-name p.root ".gitattributes" here refl refl)
      ∙ stack_of-render (is_rooted p.root) (".gitattributes" ∷ stack_of p.root)
          (inl refl, refl, stack_of-IsNormal p.root) in
    longer (file_names spec kind key p) p.dir ".gitattributes" (stack_of p.root)
      (λ none. ground (arith, none))
      (sym stack
        ∙ ap (λ r. stack_of (join (r ∷ ".gitattributes" ∷ []))) same_root
        ∙ clean_stack (join (root ∷ ".gitattributes" ∷ [])) path same
        ∙ stack_of-Placed spec kind key p)
