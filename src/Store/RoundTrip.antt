-- ===== src/Store/RoundTrip.antt =====
-- internal/controller/statecontroller/statecontroller.go: `Get` after `Put`.
use forge_ci.Common.{
  String, ◌≡◌, refl, sym, ap, ◌∙◌, subst, Bool, [], ◌∷◌, Option, none, some, ok, err, Result,
  ok_inj,
}
use forge_ci.Common.Paths.{join}
use forge_ci.Common.Actions.{renamed, pure, lift, ◌>>=◌, wrap}
use forge_ci.Common.Actions.Keeps.{Keeps, >>=-answers}
use forge_ci.Adapters.{Fs, Git}
use forge_ci.Types.{Spec}
use forge_ci.Store.{StoreError, while, of_disk, root_of, path_for}
use forge_ci.Store.Files.{StateInput, Found, get, put, found_at, keep_record}
use forge_ci.Store.Apart.{attributes-apart}
use forge_ci.Store.Disk.{View, Under, IsDisk, pair_eq, MaybeKeeps}
use forge_ci.Store.Under.{path_for-Under, root_of-Under}
use forge_ci.Store.Keeps.{keep_record-Keeps}

-- The record of a key.
abbrev pub at_key : Spec → String → String → StateInput
at_key spec kind key = record { kind = kind; key = key; spec = spec }

renamed_ok :
    {D E A : Type 0} (words : D → E) (r : Result D A) {a : A} → renamed words r ≡ ok a → r ≡ ok a
renamed_ok words (ok b) e = ap ok (ok_inj e)
renamed_ok words (err d) e = cc

-- What `Get` finds: nothing where there is no record, and where it fails.
abbrev pub found_in : Result StoreError Found → Option String
found_in (ok found) = found
found_in (err e) = none

module _ {W : Type 0} (fs : Fs W) (view : View W) (base : String) (disk : IsDisk fs view base) where
  -- `Get` answers what stands at the path of a record, and changes nothing.
  get-sees :
      (i : StateInput) (path payload : String) (w : W)
      → path_for i.spec i.kind i.key ≡ ok path
      → view path w ≡ some payload
      → get fs i w ≡ (ok (some payload), w)
  unfolding get ◌>>=◌ wrap lift found_at pure
  get-sees i path payload w e there =
      let exists =
        pair_eq (fs.exists path w) (disk.exists_sees path payload w there)
          (disk.exists_keeps path w) in
      let reads =
        pair_eq (fs.read_file path w) (disk.read_sees path payload w there)
          (disk.read_keeps path w) in
      rw (e, exists, reads) refl

  -- What a put that answers did first.
  record Written (git : Option (Git W)) (i : StateInput) (payload : String) (w : W) : Type 0 where
    root : String
    path : String
    is_root : root_of i.spec ≡ ok root
    is_path : path_for i.spec i.kind i.key ≡ ok path
    is_written : (fs.write_file path payload w).0 ≡ ok tt
    is_kept :
        (put fs git i payload w).1
        ≡ (keep_record fs git i root path (fs.write_file path payload w).1).1

  put-Written :
      (git : Option (Git W)) (i : StateInput) (payload : String) (w : W) {found : Found}
      → (put fs git i payload w).0 ≡ ok found
      → Written git i payload w
  unfolding put lift wrap pure
  put-Written git i payload w e =
      let (root, is_root, e1) = >>=-answers (lift (root_of i.spec)) _ w e in
      let (path, is_path, e2) =
        >>=-answers (lift (path_for i.spec i.kind i.key)) _ w (sym (ap (λ r. r.0) e1) ∙ e) in
      let (wrote, is_wrote, e3) =
        >>=-answers
          (wrap (λ x. while "writing" i.kind i.key (of_disk x)) (fs.write_file path payload)) _ w
          (sym (ap (λ r. r.0) (e1 ∙ e2)) ∙ e) in
      let (kept, is_kept, e4) =
        >>=-answers (keep_record fs git i root path) _ (fs.write_file path payload w).1
          (sym (ap (λ r. r.0) (e1 ∙ e2 ∙ e3)) ∙ e) in
      record {
        root = root;
        path = path;
        is_root = is_root;
        is_path = is_path;
        is_written =
            renamed_ok (λ x. while "writing" i.kind i.key (of_disk x))
              (fs.write_file path payload w).0 is_wrote;
        is_kept = ap (λ r. r.1) (e1 ∙ e2 ∙ e3 ∙ e4);
      }

  -- A record that is put is found, as it was put, whatever has been set up for it besides its file.
  pub put-get :
      (git : Option (Git W)) (i : StateInput) (path payload : String) (w : W) (found : Found)
      → root_of i.spec ≡ ok base
      → path_for i.spec i.kind i.key ≡ ok path
      → MaybeKeeps git (λ later. view path later)
      → (put fs git i payload w).0 ≡ ok found
      → get fs i (put fs git i payload w).1 ≡ (ok (some payload), (put fs git i payload w).1)
  put-get git i path payload w found is_root is_path keeps e =
      let done = put-Written git i payload w e in
      let same : done.path ≡ path = ok_inj (sym done.is_path ∙ is_path) in
      let rooted : done.root ≡ base = ok_inj (sym done.is_root ∙ is_root) in
      let apart = attributes-apart i.spec i.kind i.key done.root path done.is_root is_path in
      let under = path_for-Under i.spec i.kind i.key base path is_root is_path in
      let below =
        subst (λ r. Under r (join (done.root ∷ ".gitattributes" ∷ []))) rooted
          (root_of-Under i.spec done.root done.is_root) in
      let kept : view path (put fs git i payload w).1 ≡ some payload =
        ap (view path) done.is_kept
        ∙ (keep_record-Keeps fs view base disk path done.root done.path git i below under apart
              keeps).holds
            (fs.write_file done.path payload w).1
        ∙ ap (λ p. view p (fs.write_file done.path payload w).1) (sym same)
        ∙ disk.write_sees done.path payload w (subst (Under base) (sym same) under)
            done.is_written in
      get-sees i path payload (put fs git i payload w).1 is_path kept
