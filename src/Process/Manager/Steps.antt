-- ===== src/Process/Manager/Steps.antt =====
-- What can happen to the manager of internal/processmgr/manager.go, in any order.
use open_remote_commander.Prelude.{ℕ, ◌≡◌, String, List, none, some, Result, ok, get_elem?, lookup}
use open_remote_commander.Process.Command.{Error, StartRequest, Os}
use open_remote_commander.Process.Manager.{
  Manager, Process, WaitError, cleanup_exited, exit, forget, lingering, output, release, releasing,
  start, terminate, waiting,
}

abbrev pub Points : Manager → ℕ → Process → Type 0
Points m i p = get_elem? m.heap i ≡ some p

-- What can happen to a manager, in any order: the calls, and the steps of the goroutines, each at
-- the point where it stands. A session identifier that `Start` draws is not in use.
pub data Step (m : Manager) : Manager → Type 0 where
  starts :
      (os : Os) (now : ℕ) (req : StartRequest)
      → ((id : String) → os.random_id ≡ ok id → lookup id m.procs ≡ none)
      → Step m (start os now req m).1
  exits :
      (i : ℕ) (p : Process) (e : WaitError) (now : ℕ)
      → Points m i p
      → p.stage ≡ waiting
      → Step m (exit i e now m)
  releases : (i : ℕ) (p : Process) → Points m i p → p.stage ≡ releasing → Step m (release i m)
  forgets : (i : ℕ) (p : Process) → Points m i p → p.stage ≡ lingering → Step m (forget i p.id m)
  outputs : (i : ℕ) (prefix b : List ℕ) → Step m (output i prefix b m)
  terminates : (kill : ℕ → Result Error (Unit {0})) (id : String) → Step m (terminate kill id m).1
  cleans : (older_than now : ℕ) → Step m (cleanup_exited older_than now m)

pub data Reach (m : Manager) : Manager → Type 0 where
  here : Reach m m
  next : {n k : Manager} → Reach m n → Step n k → Reach m k
