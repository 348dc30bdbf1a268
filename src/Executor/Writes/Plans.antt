-- ===== src/Executor/Writes/Plans.antt =====
-- What an edit found before it writes.
use open_remote_commander.Prelude.{
  ℕ, ◌%◌, ◌≡◌, ◌≤◌, ap, sym, ◌∙◌, true, false, not, ◌||◌, List, Result, ok, err, fail_if, step_of,
  fail_if-eq-ok, arith, length, ltb, ◌==◌,
}
use open_remote_commander.Prelude.Int.{ℤ, pos, pos_part, ltb_ℤ}
use open_remote_commander.Disk.{Location, Node, directory, regular, link, OsError}
use open_remote_commander.Paths
use open_remote_commander.Paths.{Policy, World, resolve_existing}
use open_remote_commander.Executor.{
  Os, Codec, failed, resolved, from_system, check, max_write_bytes,
}
use open_remote_commander.Executor.Edits.{count, replace_all}
use open_remote_commander.Executor.Writes.{EditArgs, editable, expected, is_nil, edit_plan}

pub resolved-eq-ok : {A : Type 0} {a : A} (r : Result Paths.Error A) → resolved r ≡ ok a → r ≡ ok a
resolved-eq-ok (ok a) h = ground arith
resolved-eq-ok (err e) h = cc

from_system-eq-ok : {A : Type 0} {a : A} (r : Result OsError A) → from_system r ≡ ok a → r ≡ ok a
from_system-eq-ok (ok a) h = ground arith
from_system-eq-ok (err e) h = cc

-- The file that is edited, and what its edited bytes and the request have to do with it.
pub record Planned (codec : Codec) (p : Policy) (w : World) (a : EditArgs) (path : Location)
    (edited : List ℕ) (mode : ℕ) : Type 0 where
  pub bytes : List ℕ
  pub old_mode : ℕ
  pub found : resolve_existing p w a.file_path ≡ ok path
  pub stands : w.disk path ≡ ok (regular bytes old_mode)
  pub permissions : mode ≡ old_mode % 512
  pub nonempty : is_nil a.old_string ≡ false
  pub counted : count a.old_string bytes ≡ pos_part (expected a.expected_replacements)
  pub some_wanted : 1 ≤ pos_part (expected a.expected_replacements)
  pub few_wanted : pos_part (expected a.expected_replacements) ≤ 1000
  pub is_text : codec.is_utf8 bytes ≡ true
  pub replaced : edited ≡ replace_all a.old_string a.new_string bytes
  pub small : length edited ≤ max_write_bytes

editable-eq-ok : (st : Node) {b : List ℕ} {m : ℕ} → editable st ≡ ok (b, m) → st ≡ regular b m
editable-eq-ok (link t) h = cc
editable-eq-ok directory h = cc
editable-eq-ok (regular b m) h = ground arith

pub edit_plan-Planned :
    (codec : Codec) (os : Os) (p : Policy) (w : World) (a : EditArgs) (path : Location)
    (edited : List ℕ) (mode : ℕ)
    → edit_plan codec os p w a ≡ ok (path, edited, mode)
    → Planned codec p w a path edited mode
unfolding edit_plan
edit_plan-Planned codec os p w a path edited mode h =
    step_of (fail_if (is_nil a.old_string) (failed "old_string cannot be empty")) _ h λ _ e1 h.
      step_of
        (fail_if (ltb_ℤ wanted (pos 1) || ltb_ℤ (pos 1000) wanted)
          (failed "expected_replacements must be between 1 and 1000"))
        _ h
        λ _ e2 h. step_of (resolved (resolve_existing p w a.file_path)) _ h λ place e3 h.
          step_of (from_system (w.disk place)) _ h λ st e4 h.
            step_of (editable st) _ h λ (bytes, m) e5 h.
              step_of (check (os.reads place)) _ h λ _ _ h.
                step_of
                  (fail_if (not (codec.is_utf8 bytes))
                    (failed "edit_block supports UTF-8 text files only"))
                  _ h
                  λ _ e6 h.
                    step_of
                      (fail_if (not (count a.old_string bytes == pos_part wanted))
                        (failed "replacement count mismatch"))
                      _ h
                      λ _ e7 h.
                        step_of
                          (fail_if
                            (ltb max_write_bytes
                              (length (replace_all a.old_string a.new_string bytes)))
                            (failed "edited file would exceed 4MiB"))
                          (λ _. ok (place, replace_all a.old_string a.new_string bytes, m % 512)) h
                          λ _ e8 last.
                            let t1 = fail_if-eq-ok _ _ e1 in
                            let t2 = fail_if-eq-ok _ _ e2 in
                            let t6 = fail_if-eq-ok _ _ e6 in
                            let t7 = fail_if-eq-ok _ _ e7 in
                            let t8 = fail_if-eq-ok _ _ e8 in
                            let at : place ≡ path = cc in
                            let new : replace_all a.old_string a.new_string bytes ≡ edited = cc in
                            let kept : m % 512 ≡ mode = cc in
                            record {
                              bytes = bytes;
                              old_mode = m;
                              found = resolved-eq-ok _ e3 ∙ ap ok at;
                              stands =
                                  ap w.disk (sym at)
                                  ∙ from_system-eq-ok _ e4
                                  ∙ ap ok (editable-eq-ok st e5);
                              permissions = sym kept;
                              nonempty = t1;
                              counted = ground arith;
                              some_wanted = ground arith;
                              few_wanted = ground arith;
                              is_text = ground arith;
                              replaced = cc;
                              small = ground arith;
                            }
  where
    wanted : ℤ
    wanted = expected a.expected_replacements
