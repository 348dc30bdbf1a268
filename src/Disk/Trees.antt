-- ===== src/Disk/Trees.antt =====
-- A disk stays a tree when something is put into a directory of it.
use open_remote_commander.Prelude.{
  ◌≡◌, refl, sym, ap, subst, inl, inr, String, false, [], ◌∷◌, ok, err, Bool-cases, arith, length,
}
use open_remote_commander.Disk.{
  Location, Node, directory, not_exist, Disk, put, parent, same_location,
}
use open_remote_commander.Disk.Walk.{IsTree}
use open_remote_commander.Disk.Places.{same_location_iff}

-- A disk with a root and nothing else.
abbrev pub bare : Disk
bare [] = ok directory
bare (name ∷ place) = err not_exist

pub bare-IsTree : IsTree bare
bare-IsTree = record { root = refl; above = λ name place node h. cc }

longer :
    (n name : String) (q place : Location)
    → q ≡ name ∷ place
    → same_location (n ∷ q) (name ∷ place) ≡ false
longer n name q place here = elim (Bool-cases (same_location (n ∷ q) (name ∷ place))) [
  | inl same ↦
      let long = ap length here in
      let short = ap length ((same_location_iff (n ∷ q) (name ∷ place)).0 same) in
      absurd (omega arith)
  | inr other ↦ other
]

pub put-IsTree :
    (disk : Disk) (name : String) (place : Location) (node : Node)
    → IsTree disk
    → disk place ≡ ok directory
    → ¬ (disk (name ∷ place) ≡ ok directory)
    → IsTree (put (name ∷ place) node disk)
unfolding same_location
put-IsTree disk name place node tree dir free = record {
  root = tree.root;
  above = λ n q x h. elim (Bool-cases (same_location q (name ∷ place))) [
    | inl at ↦
        let here = (same_location_iff q (name ∷ place)).0 at in
        let deeper : same_location (n ∷ q) (name ∷ place) ≡ false = longer n name q place here in
        absurd (free (subst (λ r. disk r ≡ ok directory) here (tree.above n q x (rw deeper at h))))
    | inr away ↦ elim (Bool-cases (same_location (n ∷ q) (name ∷ place))) [
      | inl new ↦
          let here = (same_location_iff (n ∷ q) (name ∷ place)).0 new in
          rw away (subst (λ r. disk r ≡ ok directory) (sym (ap parent here)) dir)
      | inr old ↦ rw away (tree.above n q x (rw old at h))
    ]
  ];
}
