-- ===== src/Executor/Writes.antt =====
-- The handlers that change a file: `writeFile` and `editBlock` with `atomicWrite`.
-- Each gives its answer and the disk after it. `os.temp_name` is the name that
-- os.CreateTemp finds free; `writeFile` holds a copy of the steps of `atomicWrite`.
pub mod Moves
pub mod Plans
pub mod Kept
pub mod Confined
pub mod Atomic
use open_remote_commander.Prelude.{
  ℕ, ◌%◌, zero, String, Bool, true, false, not, ◌||◌, List, [], ◌∷◌, ◌++◌, Option, none, some,
  Result, ok, err, ◌>>=◌, ◌>>◌, fail_if, or_fail, length, take, ltb, ◌==◌, str_eq, if◌then◌else◌,
}
use open_remote_commander.Prelude.Int.{ℤ, pos, pos_part, ltb_ℤ}
use open_remote_commander.Disk.{
  Location, Node, directory, regular, link, Disk, OsError, not_exist, not_a_directory, denied, put,
  remove, parent, same_location,
}
use open_remote_commander.Paths.{Policy, World, resolve_place, resolve_existing, resolve_for_create}
use open_remote_commander.Executor.{
  Error, system, failed, Codec, Os, resolved, from_system, check, file_mode, max_write_bytes,
}
use open_remote_commander.Executor.Reads.{contents}
use open_remote_commander.Executor.Edits.{count, replace_all}

-- _ = os.Remove(name), for a write that did not succeed
abbrev pub cleaned : Os → Location → Disk → Disk
cleaned os temp disk = elim os.removes [ none ↦ remove temp disk | some e ↦ disk ]

-- The system renames no file onto a directory.
abbrev pub rename_answer : Os → Result OsError Node → Option OsError
rename_answer os (ok directory) = some (denied "is a directory")
rename_answer os _ = os.renames

abbrev pub or_else : Option OsError → Disk → Option OsError × Disk → Option OsError × Disk
or_else (some e) undone next = (some e, undone)
or_else none undone next = next

-- atomicWrite: the file is written under another name, and takes the place of the old one at the end.
unfoldable pub atomic_write : Os → Location → List ℕ → ℕ → Disk → Option OsError × Disk
atomic_write os path contents mode disk =
    let temp = os.temp_name ∷ parent path in
    let created = put temp (regular [] 384) disk in
    let broken = put temp (regular (take os.partly contents) mode) created in
    let written = put temp (regular contents mode) created in
    or_else os.creates disk (
      or_else os.chmods (cleaned os temp created) (
        or_else os.writes (cleaned os temp broken) (
          or_else os.syncs (cleaned os temp written) (
            or_else os.closes (cleaned os temp written) (
              or_else (rename_answer os (disk path)) (cleaned os temp written)
                (none, put path (regular contents mode) (remove temp written)))))))

pub record Written : Type 0 where
  pub path : Location
  pub bytes_written : ℕ

-- The answer of a handler whose checks led to one write.
abbrev pub after_write : {A : Type 0} → Disk → A → Option OsError × Disk → Result Error A × Disk
after_write disk answer (none, disk') = (ok answer, disk')
after_write disk answer (some e, disk') = (err (system e), disk')

pub record WriteArgs : Type 0 where
  pub path : String
  pub content : List ℕ
  pub encoding : String
  pub mode : ℕ

-- if st, err := os.Lstat(path); err == nil && symlink { refuse } else if err != nil && !IsNotExist
abbrev pub no_symlink : Result OsError Node → Result Error (Unit {0})
no_symlink (ok (link target)) = err (failed "refusing to overwrite a symlink")
no_symlink (ok _) = ok tt
no_symlink (err not_exist) = ok tt
no_symlink (err e) = err (system e)

abbrev pub content_bytes : Codec → WriteArgs → Result Error (List ℕ)
content_bytes codec a =
    if str_eq a.encoding "" || str_eq a.encoding "utf-8"
    then ok a.content
    else if str_eq a.encoding "base64"
    then or_fail (codec.decode64 a.content) (failed "invalid base64 content")
    else err (failed "encoding must be utf-8 or base64")

-- The checks of writeFile: the place, the bytes and the mode of the file to write.
unfoldable pub write_plan :
    Codec → Policy → World → WriteArgs → Result Error (Location × List ℕ × ℕ)
write_plan codec p w a = do
  path ← resolved (resolve_for_create p w a.path)
  bytes ← content_bytes codec a
  fail_if (ltb max_write_bytes (length bytes)) (failed "write exceeds 4MiB")
  _ ← resolved (resolve_place p w (parent path))
  no_symlink (w.disk path)
  ok (path, bytes, file_mode a.mode 384)

abbrev pub run_plan :
    {A : Type 0}
    → Os
    → Disk
    → (Location → List ℕ → ℕ → A)
    → Result Error (Location × List ℕ × ℕ)
    → Result Error A × Disk
run_plan os disk answer (err e) = (err e, disk)
run_plan os disk answer (ok (path, bytes, mode)) =
    after_write disk (answer path bytes mode) (atomic_write os path bytes mode disk)

unfoldable pub write_file : Codec → Os → Policy → World → WriteArgs → Result Error Written × Disk
unfolding write_plan atomic_write
write_file codec os p w a =
    run_plan os w.disk (λ path bytes _. record { path = path; bytes_written = length bytes })
      (write_plan codec p w a)

pub record EditArgs : Type 0 where
  pub file_path : String
  pub old_string : List ℕ
  pub new_string : List ℕ
  pub expected_replacements : ℤ

pub record Edited : Type 0 where
  pub path : Location
  pub replacements : ℕ
  pub bytes_written : ℕ

-- if a.ExpectedReplacements == 0 { a.ExpectedReplacements = 1 }
abbrev pub expected : ℤ → ℤ
expected (pos zero) = pos 1
expected n = n

-- The bytes and the mode of a file that may be edited; st.Mode().Perm() is its rest by 512.
abbrev pub editable : Node → Result Error (List ℕ × ℕ)
editable (link target) = err (failed "refusing to edit a symlink")
editable directory = err (failed "path is a directory")
editable (regular bytes mode) =
    if ltb max_write_bytes (length bytes)
    then err (failed "file exceeds 4MiB edit limit")
    else ok (bytes, mode)

abbrev pub is_nil : List ℕ → Bool
is_nil [] = true
is_nil (_ ∷ _) = false

unfoldable pub edit_plan :
    Codec → Os → Policy → World → EditArgs → Result Error (Location × List ℕ × ℕ)
edit_plan codec os p w a = do
  fail_if (is_nil a.old_string) (failed "old_string cannot be empty")
  let wanted = expected a.expected_replacements
  fail_if (ltb_ℤ wanted (pos 1) || ltb_ℤ (pos 1000) wanted)
      (failed "expected_replacements must be between 1 and 1000")
  path ← resolved (resolve_existing p w a.file_path)
  st ← from_system (w.disk path)
  (bytes, mode) ← editable st
  check (os.reads path)
  fail_if (not (codec.is_utf8 bytes)) (failed "edit_block supports UTF-8 text files only")
  fail_if (not (count a.old_string bytes == pos_part wanted)) (failed "replacement count mismatch")
  let edited = replace_all a.old_string a.new_string bytes
  fail_if (ltb max_write_bytes (length edited)) (failed "edited file would exceed 4MiB")
  ok (path, edited, mode % 512)

abbrev pub edited_of : EditArgs → Location → List ℕ → ℕ → Edited
edited_of a path bytes mode = record {
  path = path;
  replacements = pos_part (expected a.expected_replacements);
  bytes_written = length bytes;
}

unfoldable pub edit_block : Codec → Os → Policy → World → EditArgs → Result Error Edited × Disk
unfolding edit_plan atomic_write
edit_block codec os p w a = run_plan os w.disk (edited_of a) (edit_plan codec os p w a)
