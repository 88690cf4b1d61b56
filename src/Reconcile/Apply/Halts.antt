-- ===== src/Reconcile/Apply/Halts.antt =====
-- internal/controller/reconcilecontroller/reconcilecontroller.go: where the loop over the stages ends.
use forge_ci.Common.{◌≡◌, ◌⊎◌, inl, inr, refl, String, true, false, List, [], ◌∷◌, ok}
use forge_ci.Types.{ForgeTypes, Revision}
use forge_ci.Config.{Stage, Pipeline}
use forge_ci.Reconcile.Index.{EngineIndex}
use forge_ci.Reconcile.Records.{ReleaseDecision}
use forge_ci.Reconcile.World.{Env, History}
use forge_ci.Reconcile.World.After.{
  After, After-pure, After-if, After-bind, After-any, After-itself,
}
use forge_ci.Reconcile.Promote.{StageReport}
use forge_ci.Reconcile.Stages.{apply_stage}
use forge_ci.Reconcile.Apply.{carried_into, apply_stages}

module _ {f : ForgeTypes} (env : Env f) (p : Pipeline) (index : EngineIndex) (root : String)
    (revision : Revision) (decision : ReleaseDecision) where
  -- One stage, from a history to the one that it leaves: what is carried to it, then `applyStage`.
  pub record Applied (stage : Stage) (h : History f) (report : StageReport f) (after : History f)
      : Type 0 where
    pub carried : List f.Artifact
    pub is_carried : (carried_into env p index root revision stage h).0 ≡ ok carried
    pub is_report :
        (apply_stage env p index revision decision root carried stage
          (carried_into env p index root revision stage h).1).0
        ≡ ok report
    pub is_after :
        (apply_stage env p index revision decision root carried stage
          (carried_into env p index root revision stage h).1).1
        ≡ after

  -- The first stages are applied one after another, each from the history that the one before it leaves,
  -- and under its name. Behind a stage that does not advance there is neither a report nor a call: the
  -- history stays as that stage leaves it.
  abbrev pub Halts : List Stage → History f → List (StageReport f) → History f → Type 0
  Halts [] h [] after = h ≡ after
  Halts [] h (report ∷ reports) after = ⊥
  Halts (stage ∷ stages) h [] after = ⊥
  Halts (stage ∷ stages) h (report ∷ reports) after =
      (report.name ≡ stage.name)
      × ((left : History f) × Applied stage h report left
          × (((report.advance ≡ true) × Halts stages left reports after)
              ⊎ ((report.advance ≡ false) × (reports ≡ []) × (left ≡ after))))

  apply_stage-name :
      (carried : List f.Artifact) (stage : Stage) (h : History f)
      → After
          (apply_stage env p index revision decision root carried stage)
          h
          (λ report h'. report.name ≡ stage.name)
  unfolding apply_stage
  apply_stage-name carried stage h = After-bind _ _ _ _ (After-any _ _) (λ waves h1 t1.
      After-bind _ _ _ _ (After-any _ _)
        (λ answers h2 t2. After-bind _ _ _ _ (After-any _ _) (λ outcome h3 t3. After-pure _ refl)))

  apply_stage-Applied :
      (carried : List f.Artifact) (stage : Stage) (h h1 : History f)
      → (carried_into env p index root revision stage h).0 ≡ ok carried
      → (carried_into env p index root revision stage h).1 ≡ h1
      → After
          (apply_stage env p index revision decision root carried stage)
          h1
          (λ report h'. (report.name ≡ stage.name) × Applied stage h report h')
  apply_stage-Applied carried stage h h1 is_carried is_next = record {
    holds = λ report e. (
      (apply_stage-name carried stage h1).holds report e,
      record {
        carried = carried;
        is_carried = is_carried;
        is_report = rw is_next e;
        is_after = rw is_next refl;
      },
    );
  }

  -- No stage is applied behind one that did not advance: in every world, where the loop over the stages
  -- answers, it has applied the stages in order and reported on each, up to the first that did not
  -- advance or the last, and has made no call besides those of these stages.
  pub apply_stages-Halts :
      (stages : List Stage) (h : History f)
      → After
          (apply_stages env p index root revision decision stages)
          h
          (λ reports h'. Halts stages h reports h')
  unfolding apply_stages
  apply_stages-Halts [] h = After-pure _ refl
  apply_stages-Halts (stage ∷ stages) h =
      After-bind _ _ _ _ (After-itself (carried_into env p index root revision stage) h)
        (λ carried h1 made.
          After-bind _ _ _ _ (apply_stage-Applied carried stage h h1 made.0 made.1)
            (λ report h2 (same, applied).
              After-bind
                (λ rest h'.
                  ((report.advance ≡ true) × Halts stages h2 rest h')
                  ⊎ ((report.advance ≡ false) × (rest ≡ []) × (h2 ≡ h')))
                _ _ _
                (After-if _ report.advance _ _
                  (λ on. record {
                    holds = λ rest e. inl (on, (apply_stages-Halts stages h2).holds rest e);
                  })
                  (λ off. After-pure _ (inr (off, refl, refl))))
                (λ rest h3 halts. After-pure _ (same, (h2, applied, halts)))))
