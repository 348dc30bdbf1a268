-- ===== src/Process/Manager.antt =====
-- The `Manager` of internal/processmgr/manager.go. `heap` holds the process objects, a pointer is a
-- position in it, and `procs` maps session identifiers to pointers. The goroutine that `Start`
-- launches for a process is at one of four points, its `stage`: it waits for the command, it has
-- recorded the exit and not yet given its slot back, it has set the timer that forgets the session,
-- or it is over. Each critical section of the code is one function here. A time is a number of
-- nanoseconds since Go's zero time, so 0 is the zero time. Limits that the code compares with
-- numbers from 0 up are numbers.
pub mod Steps
pub mod Cases
pub mod Slots
pub mod Processes
pub mod Sessions
pub mod Starts
use open_remote_commander.Prelude.{
  ℕ, zero, suc, ◌+◌, ◌-◌, ◌*◌, ◌≡◌, String, Bool, true, false, ◌&&◌, ◌||◌, not, List, [], ◌∷◌, ◌++◌,
  Option, none, some, Map, Result, ok, err, ◌>>=◌, ◌>>◌, fail_if, or_fail, length, get_elem?, ltb,
  leb, ◌==◌, str_eq, if◌then◌else◌, lookup, insert, delete, is_some,
}
use open_remote_commander.Prelude.Int.{ℤ, pos, negsuc, leb_ℤ, ltb_ℤ, pos_part}
use open_remote_commander.Process.Ring.{Ring, Chunk, new_ring, write, read}
use open_remote_commander.Process.Command.{
  Error, not_found, limit, failed, StartRequest, Cmd, Os, command_for, with_env, is_empty,
}

pub data Stage : Type 0 where
  waiting releasing lingering ended : Stage

pub record Process : Type 0 where
  pub id : String
  pub cmd : Cmd
  pub pid : ℕ
  pub stdin_open : Bool
  pub buf : Ring
  pub exit_code : Option ℤ
  pub exited_at : ℕ
  pub deadline : Option ℕ
  pub cancelled : Bool
  pub stage : Stage

pub record Manager : Type 0 where
  pub heap : List Process
  pub procs : Map ℕ
  pub max_procs : ℕ
  pub max_buffer : ℕ
  pub max_runtime : ℕ
  pub allow_shell : Bool
  pub active : ℕ

abbrev pub new : ℕ → ℕ → ℕ → Bool → Manager
new max_procs max_buffer max_runtime allow_shell = record {
  heap = [];
  procs = [];
  max_procs = max_procs;
  max_buffer = max_buffer;
  max_runtime = max_runtime;
  allow_shell = allow_shell;
  active = 0;
}

pub record StartResult : Type 0 where
  pub process_id : String
  pub pid : ℕ

pub record ReadResult : Type 0 where
  pub bytes : List ℕ
  pub next_cursor : ℕ
  pub truncated : Bool
  pub exited : Bool
  pub exit_code : Option ℤ

-- Change the object that a pointer points to.
unfoldable pub modify : ℕ → (Process → Process) → List Process → List Process
modify i f [] = []
modify zero f (p ∷ ps) = f p ∷ ps
modify (suc i) f (p ∷ ps) = p ∷ modify i f ps

abbrev pub in_dir : String → Cmd → Cmd
in_dir cwd cmd = if str_eq cwd "" then cmd else record cmd { dir = cwd }

-- What `Start` does between the test of the limit and the registration.
unfoldable pub launch : Os → StartRequest → Bool → Result Error (String × Cmd × ℕ)
launch os req allow_shell = do
  id ← os.random_id
  bare ← command_for os.windows req allow_shell
  cmd ← with_env os.environ req.env (in_dir req.cwd bare)
  os.stdin_pipe
  pid ← os.start cmd
  ok (id, cmd, pid)

unfoldable pub new_process : Manager → String → Cmd → ℕ → ℕ → Process
new_process m id cmd pid now = record {
  id = id;
  cmd = cmd;
  pid = pid;
  stdin_open = true;
  buf = new_ring m.max_buffer;
  exit_code = none;
  exited_at = 0;
  deadline = if ltb 0 m.max_runtime then some (now + m.max_runtime) else none;
  cancelled = false;
  stage = waiting;
}

unfoldable pub register : Manager → String → Cmd → ℕ → ℕ → Manager
unfolding new_process
register m id cmd pid now = record m {
  heap = m.heap ++ new_process m id cmd pid now ∷ [];
  procs = insert id (length m.heap) m.procs;
  active = m.active + 1;
}

unfoldable pub start : Os → ℕ → StartRequest → Manager → Result Error StartResult × Manager
unfolding register
start os now req m =
    if leb m.max_procs m.active then (err limit, m) else elim (launch os req m.allow_shell) [
      | err e ↦ (err e, m)
      | ok (id, cmd, pid) ↦ (ok (record { process_id = id; pid = pid }), register m id cmd pid now)
    ]

-- How cmd.Wait() returns: with no error, with the exit code of an ExitError, or with another error.
pub data WaitError : Type 0 where
  clean : WaitError
  exit_error : ℤ → WaitError
  other : WaitError

abbrev pub code_of : WaitError → ℤ
code_of clean = pos 0
code_of (exit_error c) = c
code_of other = negsuc 0

-- The goroutine's first section, and the cancel() after it.
abbrev pub exited : WaitError → ℕ → Process → Process
exited e now p = record p {
  exit_code = some (code_of e);
  exited_at = now;
  stdin_open = false;
  cancelled = true;
  stage = releasing;
}

unfoldable pub exit : ℕ → WaitError → ℕ → Manager → Manager
exit i e now m = record m { heap = modify i (exited e now) m.heap }

-- Its second section.
abbrev pub at_stage : Stage → Process → Process
at_stage s p = record p { stage = s }

unfoldable pub release : ℕ → Manager → Manager
release i m = record m {
  heap = modify i (at_stage lingering) m.heap;
  active = if ltb 0 m.active then m.active - 1 else m.active;
}

-- The timer's function, ten minutes later.
unfoldable pub forget : ℕ → String → Manager → Manager
forget i id m = record m {
  heap = modify i (at_stage ended) m.heap;
  procs = elim (lookup id m.procs) [
    | none ↦ m.procs
    | some j ↦ if j == i then delete id m.procs else m.procs
  ];
}

-- outputWriter.Write: a chunk of stdout has no prefix, one of stderr has "[stderr] ".
abbrev pub output_into : List ℕ → List ℕ → Process → Process
output_into prefix b p = record p {
  buf = write (if not (is_empty prefix) && not (is_empty b) then write p.buf prefix else p.buf) b;
}

pub output : ℕ → List ℕ → List ℕ → Manager → Manager
output i prefix b m = record m { heap = modify i (output_into prefix b) m.heap }

-- `get`, up to the pointer: what it points to is read under the process's own lock.
unfoldable pub get : String → Manager → Result Error (ℕ × Process)
get id m = elim (lookup id m.procs) [
  | none ↦ err not_found
  | some i ↦ elim (get_elem? m.heap i) [ none ↦ err not_found | some p ↦ ok (i, p) ]
]

abbrev pub read_limit : ℤ → ℕ
read_limit max_bytes =
    if leb_ℤ max_bytes (pos 0) || ltb_ℤ (pos (256 * 1024)) max_bytes
    then 64 * 1024
    else pos_part max_bytes

unfoldable pub read_output : String → ℤ → ℤ → Manager → Result Error ReadResult
read_output id cursor max_bytes m = do
  (i, p) ← get id m
  let out = read p.buf cursor (read_limit max_bytes)
  ok (record {
    bytes = out.bytes;
    next_cursor = out.next;
    truncated = out.truncated;
    exited = is_some p.exit_code;
    exit_code = p.exit_code;
  })

-- `Write`; `pipe` is the answer of the stdin pipe.
unfoldable pub write_input :
    (List ℕ → Result Error (Unit {0})) → String → List ℕ → Manager → Result Error (Unit {0})
write_input pipe id bytes m = do
  fail_if (ltb (64 * 1024) (length bytes)) (failed "stdin chunk exceeds 64KiB")
  (i, p) ← get id m
  fail_if (is_some p.exit_code) (failed "process already exited")
  pipe bytes

abbrev pub cancel : Process → Process
cancel p = record p { cancelled = true }

-- `Terminate`; `kill` is the answer of Process.Kill().
unfoldable pub terminate :
    (ℕ → Result Error (Unit {0})) → String → Manager → Result Error (Unit {0}) × Manager
terminate kill id m = elim (get id m) [
  | err e ↦ (err e, m)
  | ok (i, p) ↦
      if is_some p.exit_code
      then (ok tt, m)
      else (kill p.pid, record m { heap = modify i cancel m.heap })
]

-- exited && !exitedAt.IsZero() && !exitedAt.After(now - olderThan)
abbrev pub is_stale : ℕ → ℕ → Process → Bool
is_stale older_than now p =
    is_some p.exit_code && ltb 0 p.exited_at && leb (p.exited_at + older_than) now

sweep : ℕ → ℕ → List Process → Map ℕ → Map ℕ
sweep older_than now heap [] = []
sweep older_than now heap ((id, i) ∷ procs) =
    let rest = sweep older_than now heap procs in
    elim (get_elem? heap i) [
      | none ↦ (id, i) ∷ rest
      | some p ↦ if is_stale older_than now p then rest else (id, i) ∷ rest
    ]

pub cleanup_exited : ℕ → ℕ → Manager → Manager
unfolding sweep
cleanup_exited older_than now m = record m { procs = sweep older_than now m.heap m.procs }

pub record SessionSummary : Type 0 where
  pub process_id : String
  pub pid : ℕ
  pub exited : Bool
  pub exit_code : Option ℤ

summaries : List Process → Map ℕ → List SessionSummary
summaries heap [] = []
summaries heap ((id, i) ∷ procs) = elim (get_elem? heap i) [
  | none ↦ summaries heap procs
  | some p ↦
      record { process_id = id; pid = p.pid; exited = is_some p.exit_code; exit_code = p.exit_code }
      ∷ summaries heap procs
]

-- `List`
pub list_sessions : Manager → List SessionSummary
unfolding summaries
list_sessions m = summaries m.heap m.procs
