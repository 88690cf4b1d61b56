-- ===== src/Reconcile/Revise/Pinned.antt =====
-- internal/controller/reconcilecontroller/pinned.go: what `pinnedRevision` answers.
use forge_ci.Common.{String, ◌≡◌, ◌⊎◌, inl, inr, refl, eq_of_==, ◌==◌, ok}
use forge_ci.Types.{ForgeTypes, Revision}
use forge_ci.Config.{Pipeline}
use forge_ci.Reconcile.World.{Env, History}
use forge_ci.Reconcile.World.After.{After, After-pure, After-if, After-bind, After-itself}
use forge_ci.Reconcile.Index.{EngineIndex}
use forge_ci.Reconcile.Release.{read_evaluation}
use forge_ci.Reconcile.Records.{ReleaseDecision}
use forge_ci.Reconcile.Revise.{resolve_revision, pinned_to, pinned_revision}

module _ {f : ForgeTypes} (env : Env f) (index : EngineIndex) (p : Pipeline)
    (root id : String) where
  -- The recorded decision for the id, as it is read, and the revision that it carries, under that id, with
  -- no call besides the read; or, where it carries none, the revision of the repos as they are.
  abbrev pub IsPinned : History f → Revision × ReleaseDecision → History f → Type 0
  IsPinned h (revision, decision) after =
      ((read_evaluation env index id h).0 ≡ ok decision)
      × (((decision.revision.id ≡ id)
            × (revision ≡ decision.revision)
            × ((read_evaluation env index id h).1 ≡ after))
          ⊎ ((decision.revision.id ≡ "")
              × ((resolve_revision env p root (read_evaluation env index id h).1).0 ≡ ok revision)
              × ((resolve_revision env p root (read_evaluation env index id h).1).1 ≡ after)))

  pinned_to-IsPinned :
      (d : ReleaseDecision) (h h1 : History f)
      → (read_evaluation env index id h).0 ≡ ok d
      → (read_evaluation env index id h).1 ≡ h1
      → After (pinned_to env index p root id d) h1 (λ answer h'. IsPinned h answer h')
  unfolding pinned_to
  pinned_to-IsPinned d h h1 is_read is_next =
      After-if _ (d.revision.id == "") _ _
        (λ none_carried.
          After-bind _ _ _ _ (After-itself (resolve_revision env p root) h1)
            (λ revision h2 (resolved, left).
              After-pure _
                (is_read, inr (eq_of_== none_carried, rw is_next resolved, rw is_next left))))
        (λ carried.
          After-if _ (d.revision.id == id) _ _
            (λ same. After-pure _ (is_read, inl (eq_of_== same, refl, is_next)))
            (λ other. record { holds = λ answer e. cc }))

  -- A phase proves the commits that the run was decided for: in every world, where `pinnedRevision`
  -- answers, its decision is the one that is recorded for the id that was asked for, and its revision is
  -- the one that this decision carries, whole and under that id, without any call besides the read;
  -- unless the decision carries none, and then the revision is that of the repos as they are.
  pub pinned_revision-IsPinned :
      (h : History f)
      → After (pinned_revision env index p root id) h (λ answer h'. IsPinned h answer h')
  unfolding pinned_revision
  pinned_revision-IsPinned h =
      After-bind _ _ _ _ (After-itself (read_evaluation env index id) h)
        (λ d h1 (is_read, is_next). pinned_to-IsPinned d h h1 is_read is_next)
