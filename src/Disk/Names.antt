-- ===== src/Disk/Names.antt =====
-- The names in the paths that filepath.Abs and filepath.EvalSymlinks give, and the paths that
-- EvalSymlinks gives back as they are.
use mathlib.Core.List.{reverse, reverse_aux, reverse-reverse}
use open_remote_commander.Prelude.{
  ℕ, zero, suc, ◌≡◌, refl, sym, ◌∙◌, subst, inl, inr, String, false, List, [], ◌∷◌, ◌++◌, Result,
  ok, err, Bool-cases, str_eq, if◌then◌else◌, arith, eq_iff, ◌≢◌, All, All-reverse,
}
use open_remote_commander.Disk.{
  Location, Node, directory, regular, link, OsError, too_many_links, Disk, parent, is_abs,
  split_slash, is_skipped, enter, turn, walk, eval_symlinks, clean,
}
use open_remote_commander.Disk.Links.{NoLinks}

-- A name that stands for an entry of a directory.
abbrev pub IsName : String → Type 0
IsName name = (name ≢ "") × (name ≢ ".") × (name ≢ "..")

abbrev pub IsClean : Location → Type 0
IsClean = All IsName

pub parent-IsClean : (place : Location) → IsClean place → IsClean (parent place)
parent-IsClean [] h = tt
parent-IsClean (name ∷ place) h = h.1

names-IsName : (name : String) → is_skipped name ≡ false → str_eq name ".." ≡ false → IsName name
names-IsName name h k = ground (arith, eq_iff name "", eq_iff name ".", eq_iff name "..")

IsName-names :
    (name : String) → IsName name → (is_skipped name ≡ false) × (str_eq name ".." ≡ false)
IsName-names name (a, b, c) = ground (arith, eq_iff name "", eq_iff name ".", eq_iff name "..")

pub clean-IsClean :
    (names : List String) (place : Location) → IsClean place → IsClean (clean names place)
unfolding clean
clean-IsClean [] place h = h
clean-IsClean (name ∷ rest) place h = elim (Bool-cases (is_skipped name)) [
  | inl skip ↦ rw skip (clean-IsClean rest place h)
  | inr on ↦ elim (Bool-cases (str_eq name "..")) [
    | inl up ↦ rw (on, up) (clean-IsClean rest (parent place) (parent-IsClean place h))
    | inr down ↦ rw (on, down) (clean-IsClean rest (name ∷ place) (names-IsName name on down, h))
  ]
]

enter-IsClean :
    (name : String) (rest : List String) (onward : Location → Result OsError Location)
    (along : String → Result OsError Location) (place : Location) (seen : Result OsError Node)
    {end : Location}
    → enter name rest onward along place seen ≡ ok end
    → (onward (name ∷ place) ≡ ok end → IsClean end)
    → ((target : String) → along target ≡ ok end → IsClean end)
    → IsClean end
enter-IsClean name rest onward along place (err e) h k j = cc
enter-IsClean name rest onward along place (ok directory) h k j = k h
enter-IsClean name [] onward along place (ok (regular c m)) h k j = k h
enter-IsClean name (_ ∷ _) onward along place (ok (regular c m)) h k j = cc
enter-IsClean name rest onward along place (ok (link target)) h k j = j target h

module _ (disk : Disk) where
  turn-IsClean :
      (name : String) (rest : List String) (onward : Location → Result OsError Location)
      (along : String → Result OsError Location) (place : Location) {end : Location}
      → IsClean place
      → turn disk name rest onward along place ≡ ok end
      → ((next : Location) → IsClean next → onward next ≡ ok end → IsClean end)
      → ((target : String) → along target ≡ ok end → IsClean end)
      → IsClean end
  turn-IsClean name rest onward along place plain h k j = elim (Bool-cases (is_skipped name)) [
    | inl skip ↦ k place plain (rw skip at h)
    | inr on ↦ elim (Bool-cases (str_eq name "..")) [
      | inl up ↦ k (parent place) (parent-IsClean place plain) (rw (on, up) at h)
      | inr down ↦
          enter-IsClean name rest onward along place (disk (name ∷ place)) (rw (on, down) at h)
            (k (name ∷ place) (names-IsName name on down, plain)) j
    ]
  ]

  walk-IsClean :
      (links : ℕ) (names : List String) (place : Location) {end : Location}
      → IsClean place
      → walk disk links names place ≡ ok end
      → IsClean end
  unfolding walk
  walk-IsClean links [] place {end} plain h =
      let same : place ≡ end = cc in subst IsClean (same) plain
  walk-IsClean zero (name ∷ rest) place plain h =
      turn-IsClean name rest (walk disk zero rest) (λ target. err too_many_links) place plain h
        (λ next p e. walk-IsClean zero rest next p e) (λ target e. cc)
  walk-IsClean (suc links) (name ∷ rest) place plain h =
      turn-IsClean name rest (walk disk (suc links) rest) _ place plain h
        (λ next p e. walk-IsClean (suc links) rest next p e)
        (λ target e.
          walk-IsClean links (split_slash target ++ rest) (if is_abs target then [] else place)
            (elim (Bool-cases (is_abs target)) [ inl a ↦ rw a tt | inr a ↦ rw a plain ]) e)

  pub eval_symlinks-IsClean :
      (path : Location) {end : Location} → eval_symlinks disk path ≡ ok end → IsClean end
  unfolding eval_symlinks
  eval_symlinks-IsClean path h = walk-IsClean 255 (reverse path) [] tt h

  NoLinks-outer :
      (names : List String) (place : Location)
      → NoLinks disk (reverse_aux names place)
      → NoLinks disk place
  NoLinks-outer [] place h = h
  NoLinks-outer (name ∷ names) place h = (NoLinks-outer names (name ∷ place) h).1

  enter_onward :
      (name : String) (rest : List String) (onward : Location → Result OsError Location)
      (along : String → Result OsError Location) (place : Location) (seen : Result OsError Node)
      {end : Location}
      → ((target : String) → ¬ (seen ≡ ok (link target)))
      → enter name rest onward along place seen ≡ ok end
      → onward (name ∷ place) ≡ ok end
  enter_onward name rest onward along place (err e) free h = cc
  enter_onward name rest onward along place (ok directory) free h = h
  enter_onward name [] onward along place (ok (regular c m)) free h = h
  enter_onward name (_ ∷ _) onward along place (ok (regular c m)) free h = cc
  enter_onward name rest onward along place (ok (link target)) free h = absurd (free target refl)

  turn_onward :
      (name : String) (rest : List String) (onward : Location → Result OsError Location)
      (along : String → Result OsError Location) (place : Location) {end : Location}
      → IsName name
      → NoLinks disk (name ∷ place)
      → turn disk name rest onward along place ≡ ok end
      → onward (name ∷ place) ≡ ok end
  turn_onward name rest onward along place plain free h =
      let (on, down) = IsName-names name plain in
      enter_onward name rest onward along place (disk (name ∷ place)) free.0 (rw (on, down) at h)

  -- Along names with no link among them the walk only goes down.
  walk_fixed :
      (links : ℕ) (names : List String) (place : Location) {end : Location}
      → All IsName names
      → NoLinks disk (reverse_aux names place)
      → walk disk links names place ≡ ok end
      → end ≡ reverse_aux names place
  unfolding walk
  walk_fixed links [] place plain free h = cc
  walk_fixed zero (name ∷ rest) place plain free h =
      walk_fixed zero rest (name ∷ place) plain.1 free (
        turn_onward name rest (walk disk zero rest) (λ target. err too_many_links) place plain.0
          (NoLinks-outer rest (name ∷ place) free) h)
  walk_fixed (suc links) (name ∷ rest) place plain free h =
      walk_fixed (suc links) rest (name ∷ place) plain.1 free (
        turn_onward name rest (walk disk (suc links) rest) _ place plain.0
          (NoLinks-outer rest (name ∷ place) free) h)

  -- A clean path with no link on the way, if it can be resolved, is its own resolution.
  pub eval_symlinks_fixed :
      (path : Location) {end : Location}
      → IsClean path
      → NoLinks disk path
      → eval_symlinks disk path ≡ ok end
      → end ≡ path
  unfolding eval_symlinks
  eval_symlinks_fixed path plain free h =
      walk_fixed 255 (reverse path) [] (All-reverse IsName path plain)
        (subst (NoLinks disk) (sym (reverse-reverse path)) free) h
      ∙ reverse-reverse path
