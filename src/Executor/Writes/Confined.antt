-- ===== src/Executor/Writes/Confined.antt =====
-- Whatever a handler is asked and however the system answers, nothing outside the roots changes.
use open_remote_commander.Prelude.{◌≡◌, String, ok, All}
use open_remote_commander.Disk.{directory, Disk}
use open_remote_commander.Disk.Walk.{IsTree}
use open_remote_commander.Paths.{Policy, World}
use open_remote_commander.Paths.Clean.{HasCleanCwd}
use open_remote_commander.Executor.{Os, Codec}
use open_remote_commander.Executor.Writes.{WriteArgs, write_file, edit_block, EditArgs}
use open_remote_commander.Executor.Writes.Moves.{create_directory, MoveArgs, move_file}

-- What holds of the world that the agent runs in.
pub record IsSound (p : Policy) (w : World) : Type 0 where
  pub tree : IsTree w.disk
  pub clean_cwd : HasCleanCwd w
  pub directories : All (λ root. w.disk root ≡ ok directory) p.roots

-- A request that changes files.
pub data Change : Type 0 where
  writing : WriteArgs → Change
  editing : EditArgs → Change
  making : String → Change
  moving : MoveArgs → Change

-- The disk after it.
abbrev pub disk_after : Codec → Os → Policy → World → Change → Disk
disk_after codec os p w (writing a) = (write_file codec os p w a).1
disk_after codec os p w (editing a) = (edit_block codec os p w a).1
disk_after codec os p w (making path) = (create_directory os p w path).1
disk_after codec os p w (moving a) = (move_file os p w a).1
