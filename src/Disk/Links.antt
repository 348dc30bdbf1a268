-- ===== src/Disk/Links.antt =====
-- How far filepath.EvalSymlinks and os.Lstat agree, whatever number of links each follows, and
-- what they say of the names that are not there.
use mathlib.Core.List.{reverse}
use open_remote_commander.Prelude.{
  ℕ, zero, suc, ◌≤◌, ◌≡◌, refl, subst, ◌⊎◌, inl, inr, String, List, [], ◌∷◌, ◌++◌, Result, ok, err,
  Bool-cases, str_eq, arith,
}
use open_remote_commander.Disk.{
  Location, Node, directory, regular, link, OsError, not_exist, too_many_links, Disk, parent,
  split_slash, is_skipped, enter, turn, walk, eval_symlinks, lstat, in_directory,
}
use open_remote_commander.Disk.Walk.{IsTree, IsLink, IsReal, eval_symlinks-IsReal}

-- Neither at the place nor on the way to it is there a link.
abbrev pub NoLinks : Disk → Location → Type 0
NoLinks disk [] = (target : String) → ¬ (disk [] ≡ ok (link target))
NoLinks disk (name ∷ place) =
    ((target : String) → ¬ (disk (name ∷ place) ≡ ok (link target))) × NoLinks disk place

-- The two answers are the same, or the first stopped for the number of links.
abbrev Agrees : Result OsError Location → Result OsError Location → Type 0
Agrees few many = (few ≡ many) ⊎ (few ≡ err too_many_links)

enter-Agrees :
    (name : String) (rest : List String) (onward onward' : Location → Result OsError Location)
    (along along' : String → Result OsError Location) (place : Location)
    (seen : Result OsError Node)
    → Agrees (onward (name ∷ place)) (onward' (name ∷ place))
    → ((target : String) → Agrees (along target) (along' target))
    → Agrees (enter name rest onward along place seen) (enter name rest onward' along' place seen)
enter-Agrees name rest onward onward' along along' place (err e) h k = inl refl
enter-Agrees name rest onward onward' along along' place (ok directory) h k = h
enter-Agrees name [] onward onward' along along' place (ok (regular c m)) h k = h
enter-Agrees name (_ ∷ _) onward onward' along along' place (ok (regular c m)) h k = inl refl
enter-Agrees name rest onward onward' along along' place (ok (link target)) h k = k target

module _ (disk : Disk) where
  turn-Agrees :
      (name : String) (rest : List String) (onward onward' : Location → Result OsError Location)
      (along along' : String → Result OsError Location) (place : Location)
      → ((next : Location) → Agrees (onward next) (onward' next))
      → ((target : String) → Agrees (along target) (along' target))
      → Agrees (turn disk name rest onward along place) (turn disk name rest onward' along' place)
  turn-Agrees name rest onward onward' along along' place h k =
      elim (Bool-cases (is_skipped name)) [
        | inl skip ↦ rw skip (h place)
        | inr on ↦ elim (Bool-cases (str_eq name "..")) [
          | inl up ↦ rw (on, up) (h (parent place))
          | inr down ↦
              rw (on, down)
                (enter-Agrees name rest onward onward' along along' place (disk (name ∷ place))
                  (h (name ∷ place)) k)
        ]
      ]

  -- With no fewer links the walk gives the same, unless the number of links stopped it.
  walk-Agrees :
      (few many : ℕ) (names : List String) (place : Location)
      → few ≤ many
      → Agrees (walk disk few names place) (walk disk many names place)
  unfolding walk
  walk-Agrees few many [] place le = inl refl
  walk-Agrees zero zero (name ∷ rest) place le = inl refl
  walk-Agrees zero (suc many) (name ∷ rest) place le =
      turn-Agrees name rest _ _ _ _ place (λ next. walk-Agrees zero (suc many) rest next le)
        (λ target. inr refl)
  walk-Agrees (suc few) zero (name ∷ rest) place le = absurd (omega arith)
  walk-Agrees (suc few) (suc many) (name ∷ rest) place le =
      turn-Agrees name rest _ _ _ _ place (λ next. walk-Agrees (suc few) (suc many) rest next le)
        (λ target. walk-Agrees few many (split_slash target ++ rest) _ (omega arith))

  -- Where the walk ends with one number of links, it does so with any, or says that they are too many.
  walk_ends :
      (i j : ℕ) (names : List String) (place : Location) {end : Location}
      → walk disk i names place ≡ ok end
      → (walk disk j names place ≡ ok end) ⊎ (walk disk j names place ≡ err too_many_links)
  walk_ends i j names place h =
      ground (arith, walk-Agrees i j names place, walk-Agrees j i names place)

  -- Where the parent resolves to a place, a name that Lstat does not find is absent there.
  pub lstat-absent :
      (tree : IsTree disk) (links : ℕ) (name : String) (path place : Location)
      → eval_symlinks disk path ≡ ok place
      → lstat disk links (name ∷ path) ≡ err not_exist
      → disk (name ∷ place) ≡ err not_exist
  unfolding lstat eval_symlinks
  lstat-absent tree links name path place h = elim (walk_ends 255 links (reverse path) [] h) [
    | inl same ↦ rw same (found (disk place) refl)
    | inr stopped ↦ rw stopped (λ e. cc)
  ]
    where
      real : IsReal disk place
      real = eval_symlinks-IsReal disk tree path h

      found :
          (seen : Result OsError Node)
          → disk place ≡ seen
          → in_directory disk name place (disk place) ≡ err not_exist
          → disk (name ∷ place) ≡ err not_exist
      found (ok directory) s = rw s (λ e. e)
      found (ok (regular c m)) s = rw s (λ e. cc)
      found (ok (link t)) s = rw s (λ e. cc)
      found (err e') s = let (node, there, _) = real in cc

module _ (disk : Disk) (tree : IsTree disk) where
  directory-NoLinks : (place : Location) → disk place ≡ ok directory → NoLinks disk place
  directory-NoLinks [] h = λ target e. cc
  directory-NoLinks (name ∷ place) h =
      (λ target e. cc, directory-NoLinks place (tree.above name place directory h))

  real-ne-link :
      (place : Location) → IsReal disk place → (target : String) → ¬ (disk place ≡ ok (link target))
  real-ne-link place (node, e, plain) target h =
      let same : link target ≡ node = cc in plain (subst IsLink (same) tt)

  pub IsReal-NoLinks : (place : Location) → IsReal disk place → NoLinks disk place
  IsReal-NoLinks [] real = directory-NoLinks [] tree.root
  IsReal-NoLinks (name ∷ place) (node, e, plain) = (
    real-ne-link (name ∷ place) (node, e, plain),
    directory-NoLinks place (tree.above name place node e),
  )

  -- Below a name that is not there, nothing is.
  pub absent-NoLinks :
      (below : List String) (name : String) (place : Location)
      → IsReal disk place
      → disk (name ∷ place) ≡ err not_exist
      → NoLinks disk (below ++ name ∷ place)
  absent-NoLinks [] name place real e = (λ target e'. cc, IsReal-NoLinks place real)
  absent-NoLinks (b ∷ below) name place real e =
      (λ target e'. gone below b (link target) e', absent-NoLinks below name place real e)
    where
      gone :
          (below : List String) (b : String) (node : Node)
          → ¬ (disk (b ∷ (below ++ name ∷ place)) ≡ ok node)
      gone [] b node h =
          let above : disk (name ∷ place) ≡ ok directory = tree.above b _ node h in cc
      gone (c ∷ below) b node h = gone below c directory (tree.above b _ node h)
