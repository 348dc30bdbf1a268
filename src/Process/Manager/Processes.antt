-- ===== src/Process/Manager/Processes.antt =====
-- What holds of every process object: an exit code is recorded exactly once its goroutine has gone
-- past the wait, and the output that is kept is bounded.
use open_remote_commander.Prelude.{
  ℕ, zero, suc, ◌≤◌, ◌≡◌, refl, ◌∙◌, String, List, [], ◌∷◌, some, Bool, true, false, is_some,
  length, get_elem?, arith, All, All-append, if◌then◌else◌,
}
use open_remote_commander.Process.Ring.{write}
use open_remote_commander.Process.Ring.History.{max-write, length-write-le}
use open_remote_commander.Process.Command.{Cmd}
use open_remote_commander.Process.Manager.Cases.{start_cases, terminate_cases}
use open_remote_commander.Process.Manager.Slots.{IsCounted, Step-IsCounted, held, running}
use open_remote_commander.Process.Manager.{
  Stage, waiting, lingering, ended, Process, Manager, new, modify, register, exited, at_stage, exit,
  release, forget, output, output_into, cancel, cleanup_exited,
}
use open_remote_commander.Process.Manager.Steps.{
  starts, exits, Step, releases, forgets, outputs, terminates, cleans, Reach, here, next,
}

abbrev is_waiting : Stage → Bool
is_waiting waiting = true
is_waiting _ = false

pub record IsSound (max_buffer : ℕ) (p : Process) : Type 0 where
  pub exit_recorded : is_some p.exit_code ≡ (if is_waiting p.stage then false else true)
  pub ring_max : p.buf.max ≡ max_buffer
  pub bounded : length p.buf.buf ≤ max_buffer

All-modify :
    (P : Process → Type 0) (i : ℕ) (f : Process → Process) (ps : List Process)
    → ((p : Process) → get_elem? ps i ≡ some p → P p → P (f p))
    → All P ps
    → All P (modify i f ps)
unfolding modify
All-modify P i f [] keep h = tt
All-modify P zero f (p ∷ ps) keep h = (keep p refl h.0, h.1)
All-modify P (suc i) f (p ∷ ps) keep h = (h.0, All-modify P i f ps keep h.1)

write-IsSound :
    (max_buffer : ℕ) (p : Process) (b : List ℕ)
    → IsSound max_buffer p
    → IsSound max_buffer (record p { buf = write p.buf b })
write-IsSound max_buffer p b v = record {
  exit_recorded = v.exit_recorded;
  ring_max = max-write p.buf b ∙ v.ring_max;
  bounded = omega (arith, length-write-le p.buf b, v.ring_max, v.bounded);
}

output_into-IsSound :
    (max_buffer : ℕ) (prefix b : List ℕ) (p : Process)
    → IsSound max_buffer p
    → IsSound max_buffer (output_into prefix b p)
output_into-IsSound max_buffer [] b p v = write-IsSound max_buffer p b v
output_into-IsSound max_buffer (c ∷ cs) [] p v = write-IsSound max_buffer p [] v
output_into-IsSound max_buffer (c ∷ cs) (d ∷ ds) p v =
    write-IsSound max_buffer (record p { buf = write p.buf (c ∷ cs) }) (d ∷ ds)
      (write-IsSound max_buffer p (c ∷ cs) v)

abbrev pub Sound : Manager → Type 0
Sound m = All (IsSound m.max_buffer) m.heap

register-Sound :
    (id : String) (cmd : Cmd) (pid now : ℕ) (m : Manager)
    → Sound m
    → Sound (register m id cmd pid now)
unfolding register
register-Sound id cmd pid now m h =
    All-append (IsSound m.max_buffer) m.heap _ h
      (record { exit_recorded = refl; ring_max = refl; bounded = omega arith }, tt)

Step-Sound : {m n : Manager} → Step m n → Sound m → Sound n
unfolding exit release forget output cleanup_exited
Step-Sound {m} (starts os now req fresh) h =
    start_cases Sound os now req m h λ id cmd pid _ _. register-Sound id cmd pid now m h
Step-Sound {m} (exits i p e now at s) h =
    All-modify (IsSound m.max_buffer) i (exited e now) m.heap
      (λ q _ v. record { exit_recorded = refl; ring_max = v.ring_max; bounded = v.bounded }) h
Step-Sound {m} (releases i p at s) h =
    All-modify (IsSound m.max_buffer) i (at_stage lingering) m.heap
      (λ q here v. record {
        exit_recorded = ground (arith, v.exit_recorded);
        ring_max = v.ring_max;
        bounded = v.bounded;
      })
      h
Step-Sound {m} (forgets i p at s) h =
    All-modify (IsSound m.max_buffer) i (at_stage ended) m.heap
      (λ q here v. record {
        exit_recorded = ground (arith, v.exit_recorded);
        ring_max = v.ring_max;
        bounded = v.bounded;
      })
      h
Step-Sound {m} (outputs i prefix b) h =
    All-modify (IsSound m.max_buffer) i (output_into prefix b) m.heap
      (λ q _ v. output_into-IsSound m.max_buffer prefix b q v) h
Step-Sound {m} (terminates kill id) h = terminate_cases Sound kill id m h λ i.
    All-modify (IsSound m.max_buffer) i cancel m.heap
      (λ q _ v. record {
        exit_recorded = v.exit_recorded;
        ring_max = v.ring_max;
        bounded = v.bounded;
      })
      h
Step-Sound (cleans older_than now) h = h

running-le-held :
    (max_buffer : ℕ) (ps : List Process) → All (IsSound max_buffer) ps → running ps ≤ held ps
running-le-held max_buffer [] h = omega arith
running-le-held max_buffer (p ∷ ps) h = ground (arith, h.0, running-le-held max_buffer ps h.1)

Step-max_procs : {m n : Manager} → Step m n → n.max_procs ≡ m.max_procs
unfolding exit release forget output cleanup_exited register
Step-max_procs {m} (starts os now req fresh) =
    start_cases (λ n. n.max_procs ≡ m.max_procs) os now req m refl λ id cmd pid _ _. refl
Step-max_procs {m} (terminates kill id) =
    terminate_cases (λ n. n.max_procs ≡ m.max_procs) kill id m refl λ i. refl
Step-max_procs (exits i p e now at s) = refl
Step-max_procs (releases i p at s) = refl
Step-max_procs (forgets i p at s) = refl
Step-max_procs (outputs i prefix b) = refl
Step-max_procs (cleans older_than now) = refl

pub record IsValid (max_procs : ℕ) (m : Manager) : Type 0 where
  pub counted : IsCounted m
  pub sound : Sound m
  pub fixed : m.max_procs ≡ max_procs

Reach-IsValid :
    (max_procs : ℕ) {m n : Manager} → IsValid max_procs m → Reach m n → IsValid max_procs n
Reach-IsValid max_procs v here = v
Reach-IsValid max_procs v (next r st) =
    let w = Reach-IsValid max_procs v r in
    record {
      counted = Step-IsCounted st w.counted;
      sound = Step-Sound st w.sound;
      fixed = Step-max_procs st ∙ w.fixed;
    }

-- However starts, exits, timers, output, terminations and clean-ups interleave, the processes that
-- still run are at most `max_procs`, `active` counts exactly the goroutines that have not given
-- their slot back, and no output buffer holds more than `max_buffer` bytes.
pub running-le-max_procs :
    (max_procs max_buffer max_runtime : ℕ) (allow_shell : Bool) {m : Manager}
    → Reach (new max_procs max_buffer max_runtime allow_shell) m
    → (running m.heap ≤ max_procs) × (m.active ≡ held m.heap) × Sound m
running-le-max_procs max_procs max_buffer max_runtime allow_shell {m} r =
    let v : IsValid max_procs m =
      Reach-IsValid max_procs
        (record {
          counted = record { counts = refl; within = omega arith };
          sound = tt;
          fixed = refl;
        })
        r in
    (
      omega (arith, running-le-held m.max_buffer m.heap v.sound, v.counted, v.fixed),
      v.counted.counts,
      v.sound,
    )
