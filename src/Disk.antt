-- ===== src/Disk.antt =====
-- The file system as the program sees it through Go's `os` and `path/filepath` on Unix. A cleaned
-- absolute path is its list of names, the innermost first, so that Dir is the tail and Base the head.
pub mod Walk
pub mod Links
pub mod Names
pub mod Places
pub mod Trees
use Prim.Native.Char.{Char, code}
use open_remote_commander.Prelude.{
  ℕ, zero, suc, String, Bool, true, false, ◌&&◌, ◌||◌, List, [], ◌∷◌, ◌++◌, Result, ok, err, ◌>>=◌,
  ◌==◌, str_eq, if◌then◌else◌,
}
use mathlib.Core.List.{reverse}

abbrev pub Location : Type 0
Location = List String

pub data Node : Type 0 where
  directory : Node
  regular : List ℕ → ℕ → Node
  link : String → Node

-- os.IsNotExist holds of the first alone.
pub data OsError : Type 0 where
  not_exist not_a_directory too_many_links : OsError
  denied : String → OsError

-- What stands at each place, links not followed, or why that cannot be seen.
abbrev pub Disk : Type 0
Disk = Location → Result OsError Node

unfoldable pub same_location : Location → Location → Bool
same_location [] [] = true
same_location [] (n ∷ ns) = false
same_location (m ∷ ms) [] = false
same_location (m ∷ ms) (n ∷ ns) = str_eq m n && same_location ms ns

-- The disk once `node` stands at `place`.
abbrev pub put : Location → Node → Disk → Disk
put place node disk q = if same_location q place then ok node else disk q

abbrev pub remove : Location → Disk → Disk
remove place disk q = if same_location q place then err not_exist else disk q

abbrev pub onto_first : Char → List String → List String
onto_first c [] = (String.◌∷◌ c String.[]) ∷ []
onto_first c (s ∷ ss) = (String.◌∷◌ c s) ∷ ss

-- strings.Split(path, "/")
unfoldable pub split_slash : String → List String
split_slash String.[] = String.[] ∷ []
split_slash (String.◌∷◌ c s) =
    let rest = split_slash s in if code c == 0x2f then String.[] ∷ rest else onto_first c rest

-- filepath.IsAbs
unfoldable pub is_abs : String → Bool
is_abs String.[] = false
is_abs (String.◌∷◌ c s) = code c == 0x2f

abbrev pub parent : Location → Location
parent [] = []
parent (n ∷ p) = p

abbrev pub is_skipped : String → Bool
is_skipped name = str_eq name "" || str_eq name "."

-- filepath.Clean of an absolute path, one name at a time.
unfoldable pub clean : List String → Location → Location
clean [] place = place
clean (name ∷ rest) place =
    clean rest
      (if is_skipped name then place else if str_eq name ".." then parent place else name ∷ place)

-- filepath.Abs, with the answer of os.Getwd.
unfoldable pub abs : Result OsError Location → String → Result OsError Location
unfolding is_abs clean split_slash
abs cwd path =
    if is_abs path
    then ok (clean (split_slash path) [])
    else (cwd >>= λ place. ok (clean (split_slash path) place))

-- What a name leads to: on from there, or along a link, or nowhere.
abbrev pub enter :
    String
    → List String
    → (Location → Result OsError Location)
    → (String → Result OsError Location)
    → Location
    → Result OsError Node
    → Result OsError Location
enter name rest onward along place (err e) = err e
enter name rest onward along place (ok directory) = onward (name ∷ place)
enter name [] onward along place (ok (regular contents mode)) = onward (name ∷ place)
enter name (_ ∷ _) onward along place (ok (regular contents mode)) = err not_a_directory
enter name rest onward along place (ok (link target)) = along target

abbrev pub turn :
    Disk
    → String
    → List String
    → (Location → Result OsError Location)
    → (String → Result OsError Location)
    → Location
    → Result OsError Location
turn disk name rest onward along place =
    if is_skipped name
    then onward place
    else if str_eq name ".."
    then onward (parent place)
    else enter name rest onward along place (disk (name ∷ place))

-- The loop of filepath.EvalSymlinks from `place`, which holds no link. So many links may be followed.
unfoldable pub walk : Disk → ℕ → List String → Location → Result OsError Location
unfolding is_abs split_slash
walk disk links [] place = ok place
walk disk zero (name ∷ rest) place =
    turn disk name rest (walk disk zero rest) (λ target. err too_many_links) place
walk disk (suc links) (name ∷ rest) place =
    turn disk name rest (walk disk (suc links) rest)
      (λ target. walk disk links (split_slash target ++ rest) (if is_abs target then [] else place))
      place

-- filepath.EvalSymlinks of a cleaned absolute path
unfoldable pub eval_symlinks : Disk → Location → Result OsError Location
unfolding walk
eval_symlinks disk path = walk disk 255 (reverse path) []

abbrev pub in_directory : Disk → String → Location → Result OsError Node → Result OsError Node
in_directory disk name place (ok directory) = disk (name ∷ place)
in_directory disk name place (ok _) = err not_a_directory
in_directory disk name place (err e) = err e

-- os.Lstat: the system follows the links on the way to the last name, `links` of them at most.
unfoldable pub lstat : Disk → ℕ → Location → Result OsError Node
unfolding walk
lstat disk links [] = disk []
lstat disk links (name ∷ path) =
    walk disk links (reverse path) [] >>= λ place. in_directory disk name place (disk place)
