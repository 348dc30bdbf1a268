-- ===== src/Paths.antt =====
-- internal/pathpolicy/pathpolicy.go. A resolved path is a cleaned absolute path, so the Clean that the
-- code applies to it once more changes nothing.
pub mod Inside
pub mod Clean
pub mod Tests
use open_remote_commander.Prelude.{
  ℕ, String, Bool, true, false, ◌||◌, not, List, [], ◌∷◌, ◌++◌, Result, ok, err, ◌>>=◌, ◌>>◌,
  fail_if, str_eq, if◌then◌else◌, trim_space,
}
use mathlib.Core.List.{reverse}
use open_remote_commander.Disk.{
  Location, Node, directory, OsError, not_exist, Disk, abs, eval_symlinks, lstat, same_location,
}

pub data Error : Type 0 where
  outside_roots path_required no_roots : Error
  bad_root : String → Error
  os : OsError → Error

pub record Policy : Type 0 where
  pub roots : List Location

-- The disk, the answer of os.Getwd and the number of links that the system follows for os.Lstat.
pub record World : Type 0 where
  pub disk : Disk
  pub cwd : Result OsError Location
  pub links : ℕ

abbrev pub from_os : {A : Type 0} → Result OsError A → Result Error A
from_os (ok a) = ok a
from_os (err e) = err (os e)

abbrev pub ups : Location → List String → List String
ups [] target = target
ups (_ ∷ base) target = ".." ∷ ups base target

-- filepath.Rel of cleaned absolute paths, outermost name first; [] stands for ".".
unfoldable pub rel_names : List String → List String → List String
rel_names [] target = target
rel_names (b ∷ base) [] = ups (b ∷ base) []
rel_names (b ∷ base) (t ∷ target) =
    if str_eq b t then rel_names base target else ups (b ∷ base) (t ∷ target)

abbrev pub rel : Location → Location → List String
rel base target = rel_names (reverse base) (reverse target)

-- rel == ".." || strings.HasPrefix(rel, "../")
abbrev pub leads_out : List String → Bool
leads_out [] = false
leads_out (name ∷ rest) = str_eq name ".."

unfoldable pub allowed : List Location → Location → Bool
unfolding rel_names
allowed [] path = false
allowed (root ∷ roots) path = not (leads_out (rel root path)) || allowed roots path

-- What ResolveExisting does with the absolute path.
unfoldable pub resolve_place : Policy → World → Location → Result Error Location
unfolding eval_symlinks allowed
resolve_place p w place = do
  resolved ← from_os (eval_symlinks w.disk place)
  fail_if (not (allowed p.roots resolved)) outside_roots
  ok resolved

unfoldable pub resolve_existing : Policy → World → String → Result Error Location
unfolding abs resolve_place
resolve_existing p w path = do
  fail_if (str_eq (trim_space path) "") path_required
  place ← from_os (abs w.cwd path)
  resolve_place p w place

-- How the search for an existing ancestor goes on.
abbrev pub climb :
    {A : Type 0} → Result OsError Node → Result Error A → Result Error A → Result Error A
climb (ok _) here above = here
climb (err not_exist) here above = above
climb (err e) here above = err (os e)

-- The loop of ResolveForCreate: the nearest ancestor that exists, and the names below it.
unfoldable pub nearest : World → Location → List String → Result Error (Location × List String)
unfolding lstat
nearest w [] suffix = climb (lstat w.disk w.links []) (ok ([], suffix)) (err outside_roots)
nearest w (name ∷ cur) suffix =
    let above = nearest w cur (suffix ++ name ∷ []) in
    climb (lstat w.disk w.links (name ∷ cur)) (ok (name ∷ cur, suffix)) above

unfoldable pub resolve_for_create : Policy → World → String → Result Error Location
unfolding abs nearest eval_symlinks allowed
resolve_for_create p w path = do
  fail_if (str_eq (trim_space path) "") path_required
  place ← from_os (abs w.cwd path)
  (cur, suffix) ← nearest w place []
  resolved ← from_os (eval_symlinks w.disk cur)
  fail_if (not (allowed p.roots (suffix ++ resolved))) outside_roots
  ok (suffix ++ resolved)

unfoldable pub seen_in : Location → List Location → Bool
unfolding same_location
seen_in v [] = false
seen_in v (u ∷ us) = same_location u v || seen_in v us

-- dedupe, with what is seen so far.
unfoldable pub dedupe_from : List Location → List Location → List Location
unfolding seen_in
dedupe_from seen [] = []
dedupe_from seen (v ∷ vs) =
    let fresh = v ∷ dedupe_from (v ∷ seen) vs in
    let rest = dedupe_from seen vs in if seen_in v seen then rest else fresh

abbrev pub dedupe : List Location → List Location
dedupe = dedupe_from []

abbrev pub is_directory : Result OsError Node → Bool
is_directory (ok directory) = true
is_directory _ = false

-- One root of New. Stat of a resolved path follows no link.
abbrev pub root_of : World → String → Result Error Location
root_of w root = do
  place ← from_os (abs w.cwd root)
  resolved ← from_os (eval_symlinks w.disk place)
  fail_if (not (is_directory (w.disk resolved))) (bad_root root)
  ok resolved

unfoldable pub roots_of : World → List String → Result Error (List Location)
unfolding abs eval_symlinks
roots_of w [] = ok []
roots_of w (r ∷ rs) = root_of w r >>= λ root. roots_of w rs >>= λ roots. ok (root ∷ roots)

abbrev pub is_empty : List String → Bool
is_empty [] = true
is_empty (_ ∷ _) = false

unfoldable pub new : World → List String → Result Error Policy
unfolding roots_of dedupe_from
new w roots = do
  fail_if (is_empty roots) no_roots
  out ← roots_of w roots
  ok (record { roots = dedupe out })
