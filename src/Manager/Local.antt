-- ===== src/Manager/Local.antt =====
-- internal/controller/managercontroller/realizer.go: the realizers that work on the machine at hand.
use forge_ci.Common.{String, Bool, true, false, none, Result, ok, err, ◌==◌, if◌then◌else◌, ◌++ₛ◌}
use forge_ci.Common.Text.{quote}
use forge_ci.Types.{Resource, resource_id, text_at}
use forge_ci.Adapters.{Fs}
use forge_ci.Manager.{Action, kept, did, Options, would, Realizer}

abbrev pub kind_directory : String
kind_directory = "directory"

abbrev pub kind_file : String
kind_file = "file"

-- What is made of the answers of the file system.
unfoldable pub made : String → Result String (Unit {0}) → Result String Action
made words (ok done) = ok (did words)
made words (err message) = err message

module _ {W : Type 0} (fs : Fs W) where
  -- The directory is not there.
  unfoldable pub make_directory : Resource → Options → W → Result String Action × W
  make_directory r opts w =
      let (answer, w') = fs.mkdir_all r.name w in
      if opts.dry_run
      then (ok (did (would opts ("create directory " ++ₛ r.name))), w)
      else (made ("created directory " ++ₛ r.name) answer, w')

  unfoldable pub make_file : Resource → Options → W → Result String Action × W
  make_file r opts w =
      let (answer, w') = fs.write_file r.name (text_at "content" r.spec) w in
      if opts.dry_run
      then (ok (did (would opts ("create file " ++ₛ r.name))), w)
      else (made ("created file " ++ₛ r.name) answer, w')

  -- What follows `Exists`: nothing is made of what is there.
  unfoldable pub unless_there :
      String → Result String Bool → W → Result String Action × W → Result String Action × W
  unless_there words (ok true) w make = (ok (kept words), w)
  unless_there words (ok false) w make = make
  unless_there words (err message) w make = (err message, w)

  -- `LocalRealizer.Realize`.
  unfoldable pub realize_local : Resource → Options → W → Result String Action × W
  realize_local r opts w =
      let (there, w') = fs.exists r.name w in
      if r.kind == kind_directory
      then unless_there ("kept directory " ++ₛ r.name) there w' (make_directory r opts w')
      else if r.kind == kind_file
      then unless_there ("kept file " ++ₛ r.name) there w' (make_file r opts w')
      else (
        err (
            "the local manager cannot realize kind "
            ++ₛ quote r.kind
            ++ₛ ", it knows directory and file"),
        w,
      )

  unfoldable pub local_realizer : Realizer W
  local_realizer = record { kind = "local"; realize = realize_local; settle = none }

-- `DryRunRealizer.Realize`.
unfoldable pub realize_dry : {W : Type 0} → Resource → Options → W → Result String Action × W
realize_dry r opts w = (ok (kept ("would realize " ++ₛ resource_id r)), w)

unfoldable pub dry_run_realizer : {W : Type 0} → Realizer W
dry_run_realizer = record { kind = "dryrun"; realize = realize_dry; settle = none }
