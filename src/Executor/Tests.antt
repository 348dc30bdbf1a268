-- ===== src/Executor/Tests.antt =====
-- Runs of the file handlers on the disk of Paths.Tests, and their theorems there.
use open_remote_commander.Prelude.{
  if◌then◌else◌, ◌≡◌, refl, ◌⊎◌, true, false, [], ◌∷◌, none, some, ok, err, arith, length,
  trim_space,
}
use open_remote_commander.Prelude.Int.{pos}
use open_remote_commander.Disk.{denied, directory, regular, same_location}
use open_remote_commander.Paths.{resolve_existing, resolve_for_create, resolve_place}
use open_remote_commander.Paths.Tests.{disk, world, policy}
use open_remote_commander.Executor.{Error, system, Codec, Os}
use open_remote_commander.Executor.Reads.Chunks.{download, download_lem}
use open_remote_commander.Executor.Edits.{replace_all, count_from, replace_from}
use open_remote_commander.Executor.Writes.{
  WriteArgs, write_plan, write_file, EditArgs, Edited, edit_block,
}
use open_remote_commander.Executor.Writes.Moves.{create_directory, move_file}
use open_remote_commander.Executor.Writes.Atomic.{
  IsFresh, Same, Put, Whole, write_file-Whole, IsEdited, edit_block-Whole, write_file_done,
}

-- Every text is UTF-8, and base64 is the text itself.
abbrev codec : Codec
codec = record { is_utf8 = λ b. true; encode64 = λ b. b; decode64 = λ b. some b }

abbrev os : Os
os = record {
  opens = λ place. none;
  reads = λ place. none;
  lists = λ place. ok [];
  temp_name = ".orc-1";
  creates = none;
  chmods = none;
  writes = none;
  partly = 0;
  syncs = none;
  closes = none;
  renames = none;
  removes = none;
  makes = λ place. none;
}

abbrev new_request : WriteArgs
new_request = record { path = "g"; content = 7 ∷ 8 ∷ []; encoding = "utf-8"; mode = 0 }

abbrev edit_request : EditArgs
edit_request = record {
  file_path = "f";
  old_string = 2 ∷ [];
  new_string = 5 ∷ 5 ∷ [];
  expected_replacements = pos 0;
}

edited_file :
    (edit_block codec os policy world edit_request).1 ("f" ∷ "home" ∷ [])
    ≡ ok (regular (1 ∷ 5 ∷ 5 ∷ 3 ∷ []) 420)
unfolding edit_block resolve_existing same_location trim_space count_from replace_from
edited_file = refl

replaced_from_the_left : replace_all (1 ∷ 1 ∷ []) (9 ∷ []) (1 ∷ 1 ∷ 1 ∷ []) ≡ 9 ∷ 1 ∷ []
unfolding replace_from
replaced_from_the_left = refl

-- A directory that is moved takes along what is in it.
moved_directory :
    (move_file os policy world (record { source = "f"; destination = "sub"; overwrite = false })).1
      ("sub" ∷ "home" ∷ [])
    ≡ ok (regular (1 ∷ 2 ∷ 3 ∷ []) 420)
unfolding move_file resolve_existing resolve_for_create same_location trim_space
moved_directory = refl

os-IsFresh : IsFresh os disk
unfolding same_location
os-IsFresh place = refl

write_file-Whole_example :
    Whole disk
      (λ path bytes _. record { path = path; bytes_written = length bytes })
      (write_plan codec policy world new_request)
      (write_file codec os policy world new_request)
write_file-Whole_example = write_file-Whole os world os-IsFresh refl codec policy new_request

edit_block-Whole_example :
    let r = edit_block codec os policy world edit_request in
    ((e : Error) × (r.0 ≡ err e) × Same disk r.1)
    ⊎ ((done : Edited) × (r.0 ≡ ok done)
        × IsEdited world policy edit_request done.path r.1
        × (done.replacements ≡ 1))
edit_block-Whole_example = edit_block-Whole os world os-IsFresh refl codec policy edit_request

-- The system makes the first of two directories and refuses the second.
abbrev half : Os
half = record os {
  makes =
      λ place. if same_location place ("y" ∷ "x" ∷ "home" ∷ []) then some (denied "full") else none;
}

half_made :
    let r = create_directory half policy world "x/y" in
    (r.0 ≡ err (system (denied "full"))) × (r.1 ("x" ∷ "home" ∷ []) ≡ ok directory)
unfolding create_directory resolve_for_create same_location trim_space
half_made = (refl, refl)

write_file_done_example :
    let r = write_file codec os policy world new_request in
    (r.0 ≡ ok (record { path = "g" ∷ "home" ∷ []; bytes_written = 2 }))
    × Put ("g" ∷ "home" ∷ []) (regular (7 ∷ 8 ∷ []) 384) disk r.1
unfolding write_plan resolve_for_create resolve_place same_location trim_space
write_file_done_example =
    write_file_done os world os-IsFresh refl codec policy new_request ("g" ∷ "home" ∷ [])
      (7 ∷ 8 ∷ []) 384 (refl, refl, refl, refl, refl, refl) refl (λ h. cc)

download_lem_example : download codec os policy world "f" (pos 2) 4 0 ≡ ok (1 ∷ 2 ∷ 3 ∷ [])
unfolding resolve_existing same_location trim_space
download_lem_example =
    download_lem codec os policy world "f" ("f" ∷ "home" ∷ []) (1 ∷ 2 ∷ 3 ∷ []) 420 (λ b. refl) refl
      refl refl refl (pos 2) 4 0 (omega arith)
