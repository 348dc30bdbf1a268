-- ===== src/Disk/Walk.antt =====
-- filepath.EvalSymlinks and os.Lstat: where the loop over the names of a path ends.
use open_remote_commander.Prelude.{
  ℕ, zero, suc, ◌≡◌, refl, subst, inl, inr, String, List, [], ◌∷◌, ◌++◌, Result, ok, err,
  Bool-cases, str_eq, if◌then◌else◌, arith,
}
use open_remote_commander.Disk.{
  Location, Node, directory, regular, link, OsError, too_many_links, Disk, parent, is_abs,
  split_slash, is_skipped, enter, turn, walk, eval_symlinks,
}
use mathlib.Core.List.{reverse}

-- What stands somewhere stands in a directory, and so on up to the root.
pub record IsTree (disk : Disk) : Type 0 where
  pub root : disk [] ≡ ok directory
  pub above :
      (name : String) (place : Location) (node : Node)
      → disk (name ∷ place) ≡ ok node
      → disk place ≡ ok directory

abbrev pub IsLink : Node → Type 0
IsLink (link target) = Unit
IsLink _ = ⊥

-- There is something at the place, and it is no link.
abbrev pub IsReal : Disk → Location → Type 0
IsReal disk place = (node : Node) × (disk place ≡ ok node) × (¬ IsLink node)

module _ (disk : Disk) (tree : IsTree disk) where
  directory-IsReal : (place : Location) → disk place ≡ ok directory → IsReal disk place
  directory-IsReal place e = (directory, e, λ h. h)

  parent-IsReal : (place : Location) → IsReal disk place → IsReal disk (parent place)
  parent-IsReal [] real = real
  parent-IsReal (name ∷ place) (node, e, _) = directory-IsReal place (tree.above name place node e)

  enter-IsReal :
      (name : String) (rest : List String) (onward : Location → Result OsError Location)
      (along : String → Result OsError Location) (place : Location) (seen : Result OsError Node)
      {end : Location}
      → disk (name ∷ place) ≡ seen
      → enter name rest onward along place seen ≡ ok end
      → (IsReal disk (name ∷ place) → onward (name ∷ place) ≡ ok end → IsReal disk end)
      → ((target : String) → along target ≡ ok end → IsReal disk end)
      → IsReal disk end
  enter-IsReal name rest onward along place (err e) s h k j = cc
  enter-IsReal name rest onward along place (ok directory) s h k j =
      k (directory-IsReal (name ∷ place) s) h
  enter-IsReal name [] onward along place (ok (regular contents mode)) s h k j =
      k (regular contents mode, s, λ no. no) h
  enter-IsReal name (_ ∷ _) onward along place (ok (regular contents mode)) s h k j = cc
  enter-IsReal name rest onward along place (ok (link target)) s h k j = j target h

  turn-IsReal :
      (name : String) (rest : List String) (onward : Location → Result OsError Location)
      (along : String → Result OsError Location) (place : Location) {end : Location}
      → IsReal disk place
      → turn disk name rest onward along place ≡ ok end
      → ((next : Location) → IsReal disk next → onward next ≡ ok end → IsReal disk end)
      → ((target : String) → along target ≡ ok end → IsReal disk end)
      → IsReal disk end
  turn-IsReal name rest onward along place {end} real h k j = elim (Bool-cases (is_skipped name)) [
    | inl skip ↦ k place real (rw skip at h)
    | inr on ↦ elim (Bool-cases (str_eq name "..")) [
      | inl up ↦ k (parent place) (parent-IsReal place real) (rw (on, up) at h)
      | inr down ↦
          enter-IsReal name rest onward along place (disk (name ∷ place)) refl (rw (on, down) at h)
            (k (name ∷ place)) j
    ]
  ]

  pub walk-IsReal :
      (links : ℕ) (names : List String) (place : Location) {end : Location}
      → IsReal disk place
      → walk disk links names place ≡ ok end
      → IsReal disk end
  unfolding walk
  walk-IsReal links [] place real h =
      let same : place ≡ _ = ground arith in subst (IsReal disk) same real
  walk-IsReal zero (name ∷ rest) place real h =
      turn-IsReal name rest (walk disk zero rest) (λ target. err too_many_links) place real h
        (λ next r e. walk-IsReal zero rest next r e) (λ target e. cc)
  walk-IsReal (suc links) (name ∷ rest) place real h =
      turn-IsReal name rest (walk disk (suc links) rest) _ place real h
        (λ next r e. walk-IsReal (suc links) rest next r e)
        (λ target e.
          walk-IsReal links (split_slash target ++ rest) (if is_abs target then [] else place)
            (elim (Bool-cases (is_abs target)) [
              | inl a ↦ rw a (directory-IsReal [] tree.root)
              | inr a ↦ rw a real
            ])
            e)

  pub eval_symlinks-IsReal :
      (path : Location) {end : Location} → eval_symlinks disk path ≡ ok end → IsReal disk end
  unfolding eval_symlinks
  eval_symlinks-IsReal path h = walk-IsReal 255 (reverse path) [] (directory-IsReal [] tree.root) h
