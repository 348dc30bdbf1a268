-- ===== src/Process/Manager/Slots.antt =====
-- The count of active processes: how `active` relates to the goroutines.
use open_remote_commander.Prelude.{
  ℕ, zero, suc, ◌+◌, ◌≤◌, ◌<◌, ◌≡◌, refl, sym, ap, ◌∙◌, String, List, [], ◌∷◌, ◌++◌, none, some,
  get_elem?, arith,
}
use open_remote_commander.Process.Command.{Cmd}
use open_remote_commander.Process.Manager.Cases.{start_cases, terminate_cases}
use open_remote_commander.Process.Manager.{
  Stage, waiting, releasing, lingering, ended, Process, Manager, modify, new_process, register,
  exited, at_stage, exit, release, forget, output, output_into, cancel, cleanup_exited,
}
use open_remote_commander.Process.Manager.Steps.{
  starts, exits, Step, releases, forgets, outputs, terminates, cleans,
}

-- 1 while the goroutine of a process still holds its slot.
abbrev pub slot : Stage → ℕ
slot waiting = 1
slot releasing = 1
slot lingering = 0
slot ended = 0

abbrev pub held : List Process → ℕ
held [] = 0
held (p ∷ ps) = slot p.stage + held ps

-- The processes whose exit is not recorded: those that still run.
abbrev pub running : List Process → ℕ
running [] = 0
running (p ∷ ps) = (elim p.exit_code [ none ↦ 1 | some c ↦ 0 ]) + running ps

held-append : (ps qs : List Process) → held (ps ++ qs) ≡ held ps + held qs
held-append [] qs = omega arith
held-append (p ∷ ps) qs = omega (arith, held-append ps qs)

held-modify :
    (i : ℕ) (f : Process → Process) (ps : List Process) (p : Process)
    → get_elem? ps i ≡ some p
    → held (modify i f ps) + slot p.stage ≡ held ps + slot (f p).stage
unfolding modify
held-modify i f [] p e = cc
held-modify zero f (q ∷ ps) p e = ground arith
held-modify (suc i) f (q ∷ ps) p e = omega (arith, held-modify i f ps p e)

held-modify_same :
    (i : ℕ) (f : Process → Process) (ps : List Process)
    → ((p : Process) → (f p).stage ≡ p.stage)
    → held (modify i f ps) ≡ held ps
unfolding modify
held-modify_same i f [] same = refl
held-modify_same zero f (q ∷ ps) same = ap (λ s. slot s + held ps) (same q)
held-modify_same (suc i) f (q ∷ ps) same = omega (arith, held-modify_same i f ps same)

held-ge-slot :
    (i : ℕ) (ps : List Process) (p : Process) → get_elem? ps i ≡ some p → slot p.stage ≤ held ps
held-ge-slot i [] p e = cc
held-ge-slot zero (q ∷ ps) p e = ground arith
held-ge-slot (suc i) (q ∷ ps) p e = omega (arith, held-ge-slot i ps p e)

-- `active` counts the held slots, and they are within the limit.
pub record IsCounted (m : Manager) : Type 0 where
  pub counts : m.active ≡ held m.heap
  pub within : m.active ≤ m.max_procs

register-IsCounted :
    (id : String) (cmd : Cmd) (pid now : ℕ) (m : Manager)
    → m.active < m.max_procs
    → IsCounted m
    → IsCounted (register m id cmd pid now)
unfolding register
register-IsCounted id cmd pid now m free v = record {
  counts = omega (arith, held-append m.heap (new_process m id cmd pid now ∷ []), v.counts);
  within = omega arith;
}

pub Step-IsCounted : {m n : Manager} → Step m n → IsCounted m → IsCounted n
unfolding exit release forget output cleanup_exited
Step-IsCounted {m} (starts os now req fresh) v =
    start_cases IsCounted os now req m v
      λ id cmd pid free _. register-IsCounted id cmd pid now m free v
Step-IsCounted {m} (exits i p e now at s) v = record {
  counts = ground (arith, held-modify i (exited e now) m.heap p at);
  within = v.within;
}
Step-IsCounted {m} (releases i p at s) v =
    let h = held-modify i (at_stage lingering) m.heap p at in
    let pos = held-ge-slot i m.heap p at in
    record { counts = ground (arith, h, pos); within = ground (arith, h, pos) }
Step-IsCounted {m} (forgets i p at s) v = record {
  counts = ground (arith, held-modify i (at_stage ended) m.heap p at);
  within = v.within;
}
Step-IsCounted {m} (outputs i prefix b) v = record {
  counts = v.counts ∙ sym (held-modify_same i (output_into prefix b) m.heap (λ p. refl));
  within = v.within;
}
Step-IsCounted {m} (terminates kill id) v = terminate_cases IsCounted kill id m v λ i. record {
  counts = v.counts ∙ sym (held-modify_same i cancel m.heap (λ p. refl));
  within = v.within;
}
Step-IsCounted (cleans older_than now) v = record { counts = v.counts; within = v.within }
