-- ===== src/Executor/Writes/Moves.antt =====
-- The handlers `createDirectory` and `moveFile` of internal/executor/executor.go, with os.MkdirAll and
-- os.Rename.
use open_remote_commander.Prelude.{
  String, Bool, true, false, List, [], ◌∷◌, ◌++◌, Option, none, some, Result, ok, err, ◌>>=◌, ◌>>◌,
  if◌then◌else◌,
}
use open_remote_commander.Disk.{
  Location, Node, directory, link, Disk, OsError, not_exist, not_a_directory, denied, put,
  same_location,
}
use open_remote_commander.Paths.{Policy, World, resolve_existing, resolve_for_create}
use open_remote_commander.Executor.{Error, system, failed, Os, resolved}
use open_remote_commander.Executor.Writes.{after_write, or_else}

-- os.Mkdir, where nothing stands at the place. The system answers for each place, so a call may make some
-- of the directories and then fail.
abbrev pub make : Os → Location → Option OsError × Disk → Option OsError × Disk
make os place (some e, disk) = (some e, disk)
make os place (none, disk) = or_else (os.makes place) disk (none, put place directory disk)

abbrev pub make_below :
    Os → Location → Disk → Result OsError Node → Option OsError × Disk → Option OsError × Disk
make_below os place disk (ok directory) above = (none, disk)
make_below os place disk (ok _) above = (some not_a_directory, disk)
make_below os place disk (err e) above = make os place above

-- os.MkdirAll
unfoldable pub mkdir_all : Os → Location → Disk → Option OsError × Disk
mkdir_all os [] disk = make_below os [] disk (disk []) (none, disk)
mkdir_all os (name ∷ place) disk =
    make_below os (name ∷ place) disk (disk (name ∷ place)) (mkdir_all os place disk)

abbrev pub after_check :
    {A B : Type 0} → Disk → Result Error A → (A → Result Error B × Disk) → Result Error B × Disk
after_check disk (err e) next = (err e, disk)
after_check disk (ok a) next = next a

-- createDirectory. A directory's mode is not modelled.
unfoldable pub create_directory : Os → Policy → World → String → Result Error Location × Disk
unfolding mkdir_all
create_directory os p w requested =
    after_check w.disk (resolved (resolve_for_create p w requested))
      λ path. after_write w.disk path (mkdir_all os path w.disk)

abbrev pub deeper : String → Option (List String) → Option (List String)
deeper name none = none
deeper name (some names) = some (name ∷ names)

-- The names of a place below another, if it is there.
unfoldable pub below : Location → Location → Option (List String)
unfolding same_location
below place [] = if same_location [] place then some [] else none
below place (name ∷ q) =
    let rest = deeper name (below place q) in
    if same_location (name ∷ q) place then some [] else rest

-- The disk after a move: what was at and below `src` is at and below `dst`.
abbrev pub moved : Location → Location → Disk → Disk
moved src dst disk q = elim (below dst q) [
  | some names ↦ disk (names ++ src)
  | none ↦ elim (below src q) [ some names ↦ err not_exist | none ↦ disk q ]
]

-- What os.Rename refuses whatever the system: a directory as the new name, a file in the place of
-- which a directory would stand, and a directory below itself.
abbrev pub move_answer :
    Os → Option (List String) → Result OsError Node → Result OsError Node → Option OsError
move_answer os within at_src (ok directory) = some (denied "file exists")
move_answer os within (ok directory) (ok _) = some not_a_directory
move_answer os (some (_ ∷ _)) at_src at_dst = some (denied "invalid argument")
move_answer os within at_src at_dst = os.renames

unfoldable pub rename : Os → Location → Location → Disk → Option OsError × Disk
unfolding below
rename os src dst disk =
    or_else (move_answer os (below src dst) (disk src) (disk dst)) disk
      (none, if same_location src dst then disk else moved src dst disk)

pub record MoveArgs : Type 0 where
  pub source : String
  pub destination : String
  pub overwrite : Bool

abbrev pub replaceable : Bool → Result OsError Node → Result Error (Unit {0})
replaceable overwrite (ok (link target)) = err (failed "refusing to replace symlink")
replaceable true (ok _) = ok tt
replaceable false (ok _) = err (failed "destination exists; set overwrite=true to replace it")
replaceable overwrite (err not_exist) = ok tt
replaceable overwrite (err e) = err (system e)

pub record Moved : Type 0 where
  pub source : Location
  pub destination : Location

unfoldable pub move_plan : Policy → World → MoveArgs → Result Error (Location × Location)
move_plan p w a = do
  src ← resolved (resolve_existing p w a.source)
  dst ← resolved (resolve_for_create p w a.destination)
  replaceable a.overwrite (w.disk dst)
  ok (src, dst)

unfoldable pub move_file : Os → Policy → World → MoveArgs → Result Error Moved × Disk
unfolding move_plan rename
move_file os p w a = after_check w.disk (move_plan p w a) λ (src, dst).
    after_write w.disk (record { source = src; destination = dst }) (rename os src dst w.disk)
