-- ===== src/Lib.antt =====
-- forge-ci: a pipeline of repos, stages and substages, driven by a core that calls its engines
-- (managers, state, gates, promotions, artifacts, compute) as MCP servers.
--
-- Which file models which part:
-- - Types: the records that cross between the core and the engines (pkg/citypes/citypes.go). The
--   types of another repository, `forge.Artifact` and `forge.TestReport`, are the parameter
--   `ForgeTypes`.
-- - Waves: the ordered groups of repos and substages (pkg/citypes/waves.go): `Waves` is `waves`,
--   `ready`, `anyEdge` and `sorted` are `ready`, `any_edge` and `sort_strings`. The loop takes as
--   fuel the number of pending names, and each round removes one at least (Waves/Ends). Waves/Target is `NeedsOf` and
--   `WavesFor`.
-- - Promotion: internal/controller/promotioncontroller/promotioncontroller.go. Percentages are exact,
--   in billionths, where the code has `float64`: the two may part where a share meets a threshold to
--   within the rounding, about 10^-13 percent.
-- - Gate: internal/controller/gatecontroller/gatecontroller.go. The answer of the file system is an
--   argument.
-- - Version: internal/controller/artifactcontroller/version.go, `Classify`, `Unclaimed`, `Bump` and
--   what they use. `Version/Scan` reads tags and caps over the bytes of a text; `int` has 64 bits.
-- - Config: the types of pkg/config/config.go and their methods; Config/Problems, Config/Validate and
--   Config/Stages are `Validate`, one function for each of its loops, and an entry of `Problem` for
--   each message.
-- - Reconcile: internal/controller/reconcilecontroller, the core:
--   Reconcile/Index is index.go (`newIndex` is `new_index`); Reconcile/Resources is
--   `reconcileResources`; Reconcile/State the state records; Reconcile/Promote gates, promotion and
--   the order of substages (reconcilecontroller.go, stagephase.go); Reconcile/Release the release
--   decision and its records (release.go, and `bumpLevel`, `releaseHome` and `recordEvaluation` of
--   reconcilecontroller.go); Reconcile/Revise the revision of a run, its record and the pinned one
--   (`resolveRevision`, `mint`, revisionwire.go, pinned.go); Reconcile/Carry is carried.go with
--   `restoreArtifacts` and `artifactsAtHand`; Reconcile/Verbs is verbs.go;
--   Reconcile/Publish is publish.go with `sameBytes`; Reconcile/Substages is `applySubstage`,
--   `putArtifacts` and `recordDependencyLocks`; Reconcile/Stages is `applyStage` and stagephase.go, where
--   the substages of a wave run one after another, in the wave's order, instead of together;
--   Reconcile/Apply is `Apply` (`apply_pipeline`), `applyFrom` and `applyPhases`. An action takes the history of
--   the calls made so far and hands back its answer and the longer history; an engine's answer is
--   any function of that history (`Env`), so the theorems hold in every deterministic world.
--   `Only` (Reconcile/World/Only) says which calls an action makes, `After` what holds once it has
--   answered; both have a rule for each way to build an action.
-- - Manager: internal/controller/managercontroller/managercontroller.go over any realizer, settler
--   and file system, and the local and dry-run realizers of realizer.go. The world is a state that
--   each operation takes and hands back.
-- - Publication: `Plan` of internal/controller/artifactcontroller/artifactcontroller.go (`plan`). A built
--   file is read through the fields of `forge.Artifact` that `Plan` reads.
-- - Adapters: the interfaces of internal/adapter to files and git, over a world `W`.
-- - Store: internal/controller/statecontroller/statecontroller.go. Store itself is `kindsFor`, `lfsFor`,
--   `rootOf`, `pathFor` and `Declare`, Store/Files the operations that touch files and git; Store/Disk
--   says what they rely on. Go's `path.Clean`, `filepath.Join` and `filepath.Rel` are written out in
--   Common/Paths, where a cleaned path is a stack of names.
-- - Common: lists, maps as association lists, texts, decimal digits, sorting and results.
--
-- How they meet: the core asks `Waves` for the order of a stage's substages, reads the `Config`
-- through its index, and calls managers, gates and promotions through `Env`, whose answers
-- Manager, Gate and Promotion describe.
--
-- Not modelled: the implementations of the adapters for git, files, processes and MCP, which are I/O;
-- the command line; the engines not named above, which are mostly calls of other tools. `encoding/json` and the file system are
-- arguments of the definitions that use them.
pub mod Common
pub mod Adapters
pub mod Store
pub mod Publication
pub mod Types
pub mod Waves
pub mod Promotion
pub mod Gate
pub mod Version
pub mod Config
pub mod Reconcile
pub mod Manager
