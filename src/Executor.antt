-- ===== src/Executor.antt =====
-- internal/executor/executor.go: the limits, the errors and the operating system's answers that the
-- handlers share. Paths are texts, contents are bytes; a resolved path holds no link (see Paths.Inside),
-- so Stat, Lstat and ReadFile of it give what stands at the place.
pub mod Reads
pub mod Writes
pub mod Edits
pub mod Tools
pub mod Tests
use open_remote_commander.Prelude.{
  ℕ, ◌+◌, ◌-◌, ◌*◌, ◌%◌, ◌^◌, String, Bool, true, false, ◌&&◌, ◌||◌, List, [], ◌∷◌, Option, none,
  some, Result, ok, err, ltb, ◌==◌, str_eq, if◌then◌else◌,
}
use open_remote_commander.Prelude.Int.{ℤ, pos, negsuc, pos_part, leb_ℤ, ltb_ℤ}
use open_remote_commander.Disk.{Location, Node, OsError, Disk}
use open_remote_commander.Paths

abbrev pub max_read_bytes : ℕ
max_read_bytes = 4 * 2 ^ 20

abbrev pub max_write_bytes : ℕ
max_write_bytes = 4 * 2 ^ 20

abbrev pub max_list_items : ℕ
max_list_items = 2000

abbrev pub max_combined_read_bytes : ℕ
max_combined_read_bytes = 8 * 2 ^ 20

pub data Error : Type 0 where
  refused : Paths.Error → Error
  system : OsError → Error
  failed : String → Error

pub data Encoding : Type 0 where
  utf8 base64 : Encoding

-- unicode/utf8 and encoding/base64
pub record Codec : Type 0 where
  pub is_utf8 : List ℕ → Bool
  pub encode64 : List ℕ → List ℕ
  pub decode64 : List ℕ → Option (List ℕ)

-- One entry of os.ReadDir; the size and the time of its Info, if that is given.
pub data Kind : Type 0 where
  folder symlink file other : Kind

pub record DirEntry : Type 0 where
  pub name : String
  pub kind : Kind
  pub info : Option (ℕ × ℕ)

-- What the operating system answers beside what the disk holds: an error, or none, for each call, the
-- name that os.CreateTemp finds, and how much of a failing Write is written.
pub record Os : Type 0 where
  pub opens : Location → Option OsError
  pub reads : Location → Option OsError
  pub lists : Location → Result OsError (List DirEntry)
  pub temp_name : String
  pub creates : Option OsError
  pub chmods : Option OsError
  pub writes : Option OsError
  pub partly : ℕ
  pub syncs : Option OsError
  pub closes : Option OsError
  pub renames : Option OsError
  pub removes : Option OsError
  pub makes : Location → Option OsError

abbrev pub resolved : {A : Type 0} → Result Paths.Error A → Result Error A
resolved (ok a) = ok a
resolved (err e) = err (refused e)

abbrev pub from_system : {A : Type 0} → Result OsError A → Result Error A
from_system (ok a) = ok a
from_system (err e) = err (system e)

abbrev pub check : Option OsError → Result Error (Unit {0})
check none = ok tt
check (some e) = err (system e)

-- limit := a.MaxBytes; if limit <= 0 || limit > maxReadBytes { limit = maxReadBytes }
abbrev pub read_limit : ℤ → ℕ
read_limit n =
    if leb_ℤ n (pos 0) || ltb_ℤ (pos max_read_bytes) n then max_read_bytes else pos_part n

-- mode := os.FileMode(def); if a.Mode != 0 { mode = os.FileMode(a.Mode & 0777) }
abbrev pub file_mode : ℕ → ℕ → ℕ
file_mode mode def = if mode == 0 then def else mode % 512
