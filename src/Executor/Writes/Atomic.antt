-- ===== src/Executor/Writes/Atomic.antt =====
-- A write happens whole or not at all, whichever call of the system fails.
use open_remote_commander.Prelude.{
  ℕ, ◌%◌, ◌≡◌, ◌≤◌, refl, sym, ap, ◌∙◌, subst, subst₂, ◌⊎◌, inl, inr, true, false, List, [], ◌∷◌,
  Option, none, some, Result, ok, err, Bool-cases, arith, length, take, if◌then◌else◌,
}
use open_remote_commander.Prelude.Int.{pos_part}
use open_remote_commander.Disk.{
  Location, Node, directory, regular, link, OsError, not_exist, Disk, put, remove, parent,
  same_location,
}
use open_remote_commander.Disk.Places.{same_location_iff}
use open_remote_commander.Paths.{Policy, World, resolve_existing}
use open_remote_commander.Executor.{Os, Codec, Error, system, max_write_bytes}
use open_remote_commander.Executor.Edits.{count, replace_all}
use open_remote_commander.Executor.Edits.Pieces.{Replaces, replace_all-Replaces}
use open_remote_commander.Executor.Writes.{
  cleaned, or_else, rename_answer, atomic_write, after_write, WriteArgs, write_plan, run_plan,
  Written, write_file, is_nil, EditArgs, Edited, edited_of, expected, edit_plan, edit_block,
}
use open_remote_commander.Executor.Writes.Plans.{Planned, edit_plan-Planned}

-- Every call of the system that a write makes went well.
abbrev pub AllWell : Os → Type 0
AllWell os =
    (os.creates ≡ none)
    × (os.chmods ≡ none)
    × (os.writes ≡ none)
    × (os.syncs ≡ none)
    × (os.closes ≡ none)
    × (os.renames ≡ none)

-- os.CreateTemp finds a name that nothing has.
abbrev pub IsFresh : Os → Disk → Type 0
IsFresh os disk = (place : Location) → disk (os.temp_name ∷ place) ≡ err not_exist

-- The same at every place.
abbrev pub Same : Disk → Disk → Type 0
Same before after = (q : Location) → after q ≡ before q

-- The same but for one place, where `node` stands.
abbrev pub Put : Location → Node → Disk → Disk → Type 0
Put place node before after =
    (q : Location) → after q ≡ (if same_location q place then ok node else before q)

-- A write that failed has left the disk as it was; one that did not has put one file on it.
abbrev pub Outcome : Disk → Location → Node → Option OsError × Disk → Type 0
Outcome disk place node r =
    ((e : OsError) × (r.0 ≡ some e) × Same disk r.1) ⊎ ((r.0 ≡ none) × Put place node disk r.1)

or_else-Outcome :
    (disk : Disk) (place : Location) (node : Node) (answer : Option OsError) (undone : Disk)
    (next : Option OsError × Disk)
    → Same disk undone
    → Outcome disk place node next
    → Outcome disk place node (or_else answer undone next)
or_else-Outcome disk place node none undone next same rest = rest
or_else-Outcome disk place node (some e) undone next same rest = inl (e, refl, same)

module _ (os : Os) (disk : Disk) (fresh : IsFresh os disk) (removes : os.removes ≡ none) where
  fresh_at :
      (q place : Location) → same_location q (os.temp_name ∷ place) ≡ true → disk q ≡ err not_exist
  fresh_at q place same =
      subst (λ r. disk r ≡ err not_exist)
        (sym ((same_location_iff q (os.temp_name ∷ place)).0 same)) (fresh place)

  -- Removing the file that a write has begun leaves no trace of it.
  cleaned-Same :
      (place : Location) (after : Disk)
      → ((q : Location) → same_location q (os.temp_name ∷ place) ≡ false → after q ≡ disk q)
      → Same disk (cleaned os (os.temp_name ∷ place) after)
  cleaned-Same place after h q = elim (Bool-cases (same_location q (os.temp_name ∷ place))) [
    | inl same ↦ rw (removes, same) (sym (fresh_at q place same))
    | inr other ↦ rw (removes, other) (h q other)
  ]

  put-elsewhere :
      (temp : Location) (first last : Node) (q : Location)
      → same_location q temp ≡ false
      → (put temp last (put temp first disk) q ≡ disk q) × (put temp first disk q ≡ disk q)
  put-elsewhere temp first last q other = ground arith

  pub atomic_write-Outcome :
      (path : Location) (contents : List ℕ) (mode : ℕ)
      → Outcome disk path (regular contents mode) (atomic_write os path contents mode disk)
  unfolding atomic_write
  atomic_write-Outcome path contents mode =
      step os.creates (λ q. refl)
        (step os.chmods
          (undo (λ q other. (put-elsewhere temp (regular [] 384) (regular [] 384) q other).1))
          (step os.writes (undo_two (regular (take os.partly contents) mode)) (
            step os.syncs (undo_two (regular contents mode)) (
              step os.closes (undo_two (regular contents mode)) (
                step (rename_answer os (disk path)) (undo_two (regular contents mode))
                  (inr (refl, final)))))))
    where
      temp : Location
      temp = os.temp_name ∷ parent path

      undo :
          {after : Disk}
          → ((q : Location) → same_location q temp ≡ false → after q ≡ disk q)
          → Same disk (cleaned os temp after)
      undo {after} = cleaned-Same (parent path) after

      undo_two :
          (last : Node)
          → Same disk (cleaned os temp (put temp last (put temp (regular [] 384) disk)))
      undo_two last = undo (λ q other. (put-elsewhere temp (regular [] 384) last q other).0)

      step :
          (answer : Option OsError) {undone : Disk} {next : Option OsError × Disk}
          → Same disk undone
          → Outcome disk path (regular contents mode) next
          → Outcome disk path (regular contents mode) (or_else answer undone next)
      step answer {undone} {next} =
          or_else-Outcome disk path (regular contents mode) answer undone next

      final : Put path (regular contents mode) disk (
          put path
            (regular contents mode)
            (remove temp (put temp (regular contents mode) (put temp (regular [] 384) disk))))
      final q = elim (Bool-cases (same_location q temp)) [
        | inl same ↦ let gone = fresh_at q (parent path) same in ground arith
        | inr other ↦ ground arith
      ]

cons-cases : (s : List ℕ) → is_nil s ≡ false → (b : ℕ) × (bs : List ℕ) × (s ≡ b ∷ bs)
cons-cases [] h = cc
cons-cases (b ∷ bs) h = (b, bs, refl)

-- What a handler answers that ended in one write.
abbrev pub Answered : {A : Type 0} → Disk → Location → Node → A → Result Error A × Disk → Type 0
Answered disk place node answer r =
    ((e : Error) × (r.0 ≡ err e) × Same disk r.1) ⊎ ((r.0 ≡ ok answer) × Put place node disk r.1)

after_write-Answered :
    {A : Type 0} (disk : Disk) (place : Location) (node : Node) (answer : A)
    (r : Option OsError × Disk)
    → Outcome disk place node r
    → Answered disk place node answer (after_write disk answer r)
after_write-Answered disk place node answer (none, d) (inl (e, h, same)) = cc
after_write-Answered disk place node answer (none, d) (inr (h, new)) = inr (refl, new)
after_write-Answered disk place node answer (some e, d) (inl (e', h, same)) =
    inl (system e, refl, same)
after_write-Answered disk place node answer (some e, d) (inr (h, new)) = cc

-- What a request for one write comes to: an error that leaves the disk as it was, or what is planned.
abbrev pub Whole :
    {A : Type 0}
    → Disk
    → (Location → List ℕ → ℕ → A)
    → Result Error (Location × List ℕ × ℕ)
    → Result Error A × Disk
    → Type 0
Whole disk answer plan r =
    ((e : Error) × (r.0 ≡ err e) × Same disk r.1)
    ⊎ ((path : Location) × (bytes : List ℕ) × (mode : ℕ) × (plan ≡ ok (path, bytes, mode))
        × (r.0 ≡ ok (answer path bytes mode))
        × Put path (regular bytes mode) disk r.1)

-- The file that an edit found, and the file that stands there after it.
pub record IsEdited (w : World) (p : Policy) (a : EditArgs) (path : Location) (after : Disk)
    : Type 0 where
  pub bytes : List ℕ
  pub edited : List ℕ
  pub mode : ℕ
  pub first : ℕ
  pub others : List ℕ
  pub found : resolve_existing p w a.file_path ≡ ok path
  pub stood : w.disk path ≡ ok (regular bytes mode)
  pub separator : a.old_string ≡ first ∷ others
  pub replaced :
      Replaces first others a.new_string bytes edited (pos_part (expected a.expected_replacements))
  pub small : length edited ≤ max_write_bytes
  pub stands : Put path (regular edited (mode % 512)) w.disk after

Planned-IsEdited :
    (codec : Codec) (w : World) (p : Policy) (a : EditArgs) (path : Location) (edited : List ℕ)
    (mode : ℕ) (after : Disk)
    → Planned codec p w a path edited mode
    → Put path (regular edited mode) w.disk after
    → IsEdited w p a path after
Planned-IsEdited codec w p a path edited mode after plan new =
    let (first, others, e) = cons-cases a.old_string plan.nonempty in
    record {
      bytes = plan.bytes;
      edited = edited;
      mode = plan.old_mode;
      first = first;
      others = others;
      found = plan.found;
      stood = plan.stands;
      separator = e;
      replaced =
          subst₂ (λ r n. Replaces first others a.new_string plan.bytes r n)
            (sym (plan.replaced ∙ ap (λ s. replace_all s a.new_string plan.bytes) e))
            (sym (ap (λ s. count s plan.bytes) e) ∙ plan.counted)
            (replace_all-Replaces first others a.new_string plan.bytes);
      small = plan.small;
      stands = subst (λ m. Put path (regular edited m) w.disk after) plan.permissions new;
    }

atomic_write_done :
    (os : Os) (path : Location) (bytes : List ℕ) (mode : ℕ) (disk : Disk)
    → AllWell os
    → ¬ (disk path ≡ ok directory)
    → (atomic_write os path bytes mode disk).0 ≡ none
unfolding atomic_write
atomic_write_done os path bytes mode disk (c, h, wr, s, cl, rn) file =
    rw (c, h, wr, s, cl, answer_of_file (disk path) file, rn) refl
  where
    answer_of_file :
        (seen : Result OsError Node) → ¬ (seen ≡ ok directory) → rename_answer os seen ≡ os.renames
    answer_of_file (ok directory) h = absurd (h refl)
    answer_of_file (ok (regular _ _)) h = refl
    answer_of_file (ok (link _)) h = refl
    answer_of_file (err _) h = refl

after_write_done :
    {A : Type 0} (disk : Disk) (answer : A) (r : Option OsError × Disk)
    → r.0 ≡ none
    → after_write disk answer r ≡ (ok answer, r.1)
after_write_done disk answer (none, d) h = refl
after_write_done disk answer (some e, d) h = cc

module _ (os : Os) (w : World) (fresh : IsFresh os w.disk) (removes : os.removes ≡ none) where
  run_plan-Whole :
      {A : Type 0} (answer : Location → List ℕ → ℕ → A)
      (plan : Result Error (Location × List ℕ × ℕ))
      → Whole w.disk answer plan (run_plan os w.disk answer plan)
  run_plan-Whole answer (err e) = inl (e, refl, λ q. refl)
  run_plan-Whole answer (ok (path, bytes, mode)) =
      elim (after_write-Answered w.disk path (regular bytes mode) (answer path bytes mode) _
        (atomic_write-Outcome os w.disk fresh removes path bytes mode)) [
          | inl failed ↦ inl failed
          | inr (done, new) ↦ inr (path, bytes, mode, refl, done, new)
        ]

  -- Where a name for the temporary file is free and it can be removed again, a request to write ends in
  -- an error and the disk as it was, or in the planned file with the planned bytes and nothing else changed.
  pub write_file-Whole :
      (codec : Codec) (p : Policy) (a : WriteArgs)
      → Whole w.disk
          (λ path bytes _. record { path = path; bytes_written = length bytes })
          (write_plan codec p w a)
          (write_file codec os p w a)
  unfolding write_file
  write_file-Whole codec p a = run_plan-Whole _ (write_plan codec p w a)

  -- Where a name for the temporary file is free and it can be removed again, a request to edit ends in
  -- an error and the disk as it was, or the file that its path leads to is rewritten with exactly the
  -- expected number of occurrences replaced, within 4 MiB, and with the permission bits of its mode.
  pub edit_block-Whole :
      (codec : Codec) (p : Policy) (a : EditArgs)
      → let r = edit_block codec os p w a in
        ((e : Error) × (r.0 ≡ err e) × Same w.disk r.1)
        ⊎ ((done : Edited) × (r.0 ≡ ok done)
            × IsEdited w p a done.path r.1
            × (done.replacements ≡ pos_part (expected a.expected_replacements)))
  unfolding edit_block
  edit_block-Whole codec p a = elim (run_plan-Whole (edited_of a) (edit_plan codec os p w a)) [
    | inl failed ↦ inl failed
    | inr (path, bytes, mode, plan, done, new) ↦ inr (
      edited_of a path bytes mode,
      done,
      Planned-IsEdited codec w p a path bytes mode _
          (edit_plan-Planned codec os p w a path bytes mode plan) new,
      refl,
    )
  ]

  -- Where a name for the temporary file is free and it can be removed again, a planned write of which
  -- no call fails, where no directory stands at its place, is answered with success, and then the
  -- planned bytes with the planned mode stand at its place and all else is as it was.
  pub write_file_done :
      (codec : Codec) (p : Policy) (a : WriteArgs) (path : Location) (bytes : List ℕ) (mode : ℕ)
      → AllWell os
      → write_plan codec p w a ≡ ok (path, bytes, mode)
      → ¬ (w.disk path ≡ ok directory)
      → let r = write_file codec os p w a in
        (r.0 ≡ ok (record { path = path; bytes_written = length bytes }))
        × Put path (regular bytes mode) w.disk r.1
  unfolding write_file
  write_file_done codec p a path bytes mode well plan file =
      let written = atomic_write os path bytes mode w.disk in
      let done = atomic_write_done os path bytes mode w.disk well file in
      let answer : Written = record { path = path; bytes_written = length bytes } in
      elim (atomic_write-Outcome os w.disk fresh removes path bytes mode) [
        | inl (e, failed, same) ↦ cc
        | inr (none_, new) ↦ rw (plan, after_write_done w.disk answer written done) (refl, new)
      ]
