-- ===== src/Executor/Writes/Kept.antt =====
-- Each step of a handler that changes files keeps the disk outside the roots as it is, where the
-- places that it is given lie inside.
use open_remote_commander.Prelude.{
  ℕ, ◌≡◌, refl, sym, ap, subst, ◌∙◌, ◌⊎◌, inl, inr, String, false, List, [], ◌∷◌, ◌++◌, Option,
  none, some, Result, ok, err, Bool-cases, Option-cases, arith, All,
}
use open_remote_commander.Disk.{
  Location, Node, directory, regular, link, OsError, Disk, parent, same_location,
}
use open_remote_commander.Disk.Links.{NoLinks}
use open_remote_commander.Disk.Places.{same_location_iff}
use open_remote_commander.Paths.Inside.{IsInside}
use open_remote_commander.Executor.{Os, Error}
use open_remote_commander.Executor.Writes.{atomic_write, after_write, run_plan}
use open_remote_commander.Executor.Writes.Moves.{
  make_below, mkdir_all, below, deeper, moved, move_answer, rename,
}

-- Outside the roots the two disks are the same.
abbrev pub Keeps : List Location → Disk → Disk → Type 0
Keeps roots before after = (q : Location) → ¬ IsInside roots q → after q ≡ before q

pub directory-cases :
    (seen : Result OsError Node) → (seen ≡ ok directory) ⊎ (¬ (seen ≡ ok directory))
directory-cases (ok directory) = inl refl
directory-cases (ok (regular c m)) = inr (λ h. cc)
directory-cases (ok (link t)) = inr (λ h. cc)
directory-cases (err e) = inr (λ h. cc)

pub parent-NoLinks :
    (disk : Disk) (place : Location) → NoLinks disk place → NoLinks disk (parent place)
parent-NoLinks disk [] h = h
parent-NoLinks disk (name ∷ place) h = h.1

pub after_write_disk :
    {A : Type 0} (disk : Disk) (a : A) (r : Option OsError × Disk) (q : Location)
    → (after_write disk a r).1 q ≡ r.1 q
after_write_disk disk a (none, d) q = refl
after_write_disk disk a (some e, d) q = refl

pub below-eq-some :
    (place q : Location) {names : List String} → below place q ≡ some names → q ≡ names ++ place
unfolding below
below-eq-some place [] {names} = elim (Bool-cases (same_location [] place)) [
  | inl same ↦ rw same λ h. let e = (same_location_iff [] place).0 same in ground arith
  | inr other ↦ rw other λ h. cc
]
below-eq-some place (n ∷ q) {names} = elim (Bool-cases (same_location (n ∷ q) place)) [
  | inl same ↦ rw same λ h. let e = (same_location_iff (n ∷ q) place).0 same in ground arith
  | inr other ↦ rw other (deeper-eq n (below place q) (λ rest e. below-eq-some place q e))
]
  where
    deeper-eq :
        (n : String) (o : Option (List String))
        → ((rest : List String) → o ≡ some rest → q ≡ rest ++ place)
        → deeper n o ≡ some names
        → n ∷ q ≡ names ++ place
    deeper-eq n none k h = cc
    deeper-eq n (some rest) k h = let e = k rest refl in ground arith

module _ (roots : List Location) where
  pub IsInside-cons :
      (rs : List Location) (name : String) (place : Location)
      → IsInside rs place
      → IsInside rs (name ∷ place)
  IsInside-cons [] name place h = h
  IsInside-cons (r ∷ rs) name place (inl (below, e)) = inl (name ∷ below, ap (◌∷◌ name) e)
  IsInside-cons (r ∷ rs) name place (inr h) = inr (IsInside-cons rs name place h)

  pub IsInside-append :
      (names : List String) (place : Location)
      → IsInside roots place
      → IsInside roots (names ++ place)
  IsInside-append [] place h = h
  IsInside-append (name ∷ names) place h =
      IsInside-cons roots name (names ++ place) (IsInside-append names place h)

  -- A place outside is none of those inside.
  pub elsewhere :
      (q place : Location)
      → ¬ IsInside roots q
      → IsInside roots place
      → same_location q place ≡ false
  elsewhere q place out inside = elim (Bool-cases (same_location q place)) [
    | inl same ↦
        absurd (out (subst (IsInside roots) (sym ((same_location_iff q place).0 same)) inside))
    | inr other ↦ other
  ]

  pub atomic_write-Keeps :
      (os : Os) (path : Location) (contents : List ℕ) (mode : ℕ) (disk : Disk)
      → IsInside roots (os.temp_name ∷ parent path)
      → IsInside roots path
      → Keeps roots disk (atomic_write os path contents mode disk).1
  unfolding atomic_write
  atomic_write-Keeps os path contents mode disk temp inside q out =
      let t = elsewhere q (os.temp_name ∷ parent path) out temp in
      let p = elsewhere q path out inside in ground arith

  -- A place inside that is no directory stands below a root, so its parent is inside too.
  pub parent-IsInside :
      (disk : Disk) (rs : List Location) (place : Location)
      → All (λ root. disk root ≡ ok directory) rs
      → ¬ (disk place ≡ ok directory)
      → IsInside rs place
      → IsInside rs (parent place)
  parent-IsInside disk [] place dirs file h = h
  parent-IsInside disk (r ∷ rs) place dirs file (inl ([], e)) =
      absurd (file (subst (λ q. disk q ≡ ok directory) (sym e) dirs.0))
  parent-IsInside disk (r ∷ rs) place dirs file (inl (n ∷ below, e)) = inl (below, ap parent e)
  parent-IsInside disk (r ∷ rs) place dirs file (inr h) =
      inr (parent-IsInside disk rs place dirs.1 file h)

  pub run_plan-Keeps :
      {A : Type 0} (os : Os) (disk : Disk) (answer : Location → List ℕ → ℕ → A)
      (plan : Result Error (Location × List ℕ × ℕ))
      → ((path : Location) (bytes : List ℕ) (mode : ℕ)
          → plan ≡ ok (path, bytes, mode)
          → IsInside roots path × IsInside roots (parent path))
      → Keeps roots disk (run_plan os disk answer plan).1
  run_plan-Keeps os disk answer (err e) h q out = refl
  run_plan-Keeps os disk answer (ok (path, bytes, mode)) h q out =
      let (inside, above) = h path bytes mode refl in
      after_write_disk disk (answer path bytes mode) (atomic_write os path bytes mode disk) q
      ∙ atomic_write-Keeps os path bytes mode disk
          (IsInside-cons roots os.temp_name (parent path) above) inside q out

  pub make_below-Keeps :
      (os : Os) (place : Location) (disk : Disk) (seen : Result OsError Node)
      (above : Option OsError × Disk)
      → IsInside roots place
      → Keeps roots disk above.1
      → Keeps roots disk (make_below os place disk seen above).1
  make_below-Keeps os place disk seen above inside kept q out =
      let other = elsewhere q place out inside in let k = kept q out in ground arith

  pub mkdir_all-Keeps :
      (os : Os) (disk : Disk) (place : Location)
      → All (λ root. disk root ≡ ok directory) roots
      → IsInside roots place
      → Keeps roots disk (mkdir_all os place disk).1
  unfolding mkdir_all
  mkdir_all-Keeps os disk [] dirs inside =
      make_below-Keeps os [] disk (disk []) (none, disk) inside (λ q out. refl)
  mkdir_all-Keeps os disk (name ∷ place) dirs inside =
      elim (directory-cases (disk (name ∷ place))) [
        | inl there ↦ rw there (λ q out. refl)
        | inr absent ↦
            make_below-Keeps os (name ∷ place) disk (disk (name ∷ place)) (mkdir_all os place disk)
              inside
              (mkdir_all-Keeps os disk place dirs
                (parent-IsInside disk roots (name ∷ place) dirs absent inside))
      ]

  pub moved-Keeps :
      (src dst : Location) (disk : Disk)
      → IsInside roots src
      → IsInside roots dst
      → Keeps roots disk (moved src dst disk)
  moved-Keeps src dst disk from to q out = elim (Option-cases (below dst q)) [
    | inr (names, e) ↦
        absurd (
          out (subst (IsInside roots) (sym (below-eq-some dst q e)) (IsInside-append names dst to)))
    | inl none_dst ↦ elim (Option-cases (below src q)) [
      | inr (names, e) ↦ absurd (
          out
            (subst (IsInside roots) (sym (below-eq-some src q e)) (IsInside-append names src from)))
      | inl none_src ↦ ground arith
    ]
  ]

  pub rename-Keeps :
      (os : Os) (src dst : Location) (disk : Disk)
      → IsInside roots src
      → IsInside roots dst
      → Keeps roots disk (rename os src dst disk).1
  unfolding rename
  rename-Keeps os src dst disk from to q out =
      let kept = moved-Keeps src dst disk from to q out in
      elim (Option-cases (move_answer os (below src dst) (disk src) (disk dst))) [
        | inl fine ↦ rw fine (elim (Bool-cases (same_location src dst)) [
          | inl same ↦ rw same
          | inr other ↦ rw other kept
        ])
        | inr (e, bad) ↦ rw bad
      ]
