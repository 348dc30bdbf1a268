-- ===== src/Process/Tests.antt =====
-- Runs of the ring and of the process manager at concrete inputs.
use open_remote_commander.Prelude.{
  ℕ, ◌≤◌, ◌≡◌, refl, true, false, List, [], ◌∷◌, some, ok, arith, lookup, contains_char,
}
use open_remote_commander.Prelude.Int.{negsuc}
use open_remote_commander.Process.Ring.{Ring, new_ring, write, write_all, trim, read}
use open_remote_commander.Process.Ring.History.{write_all_lem}
use open_remote_commander.Process.Ring.Follow.{Turn, writes, polls, follow, reader, follow_lem}
use open_remote_commander.Process.Command.{StartRequest, Cmd, Os, command_for, with_env}
use open_remote_commander.Process.Command.Allowed.{IsAllowed}
use open_remote_commander.Process.Manager.{Manager, Process, new, start, launch, new_process, get}
use open_remote_commander.Process.Manager.Steps.{starts, Reach, here, next, Points}
use open_remote_commander.Process.Manager.Slots.{held, running}
use open_remote_commander.Process.Manager.Processes.{Sound, running-le-max_procs}
use open_remote_commander.Process.Manager.Sessions.{get-running}
use open_remote_commander.Process.Manager.Starts.{launch-IsAllowed}

abbrev chunks : List (List ℕ)
chunks = (1 ∷ 2 ∷ 3 ∷ []) ∷ (4 ∷ 5 ∷ 6 ∷ []) ∷ []

abbrev four : Ring
four = record { buf = 3 ∷ 4 ∷ 5 ∷ 6 ∷ []; base = 2; max = 4 }

write_all_lem_example :
    ((write_all (new_ring 4) chunks).buf ≡ 3 ∷ 4 ∷ 5 ∷ 6 ∷ [])
    × ((write_all (new_ring 4) chunks).base ≡ 2)
write_all_lem_example = write_all_lem 4 chunks (omega arith)

read_before_start :
    read four (negsuc 0) 2 ≡ record { bytes = 3 ∷ 4 ∷ []; next = 4; truncated = true }
unfolding read
read_before_start = refl

abbrev turns : List Turn
turns = writes (1 ∷ 2 ∷ []) ∷ polls 1 ∷ writes (3 ∷ 4 ∷ []) ∷ polls 8 ∷ []

follow_lem_example : (follow (reader 4) turns).got ≡ 1 ∷ 2 ∷ 3 ∷ 4 ∷ []
unfolding follow read write trim
follow_lem_example = follow_lem 4 turns (omega arith) refl

abbrev os : Os
os = record {
  windows = false;
  environ = "HOME=/root" ∷ [];
  random_id = ok "a1";
  stdin_pipe = ok tt;
  start = λ _. ok 42;
}

abbrev list_files : StartRequest
list_files = record {
  argv = "ls" ∷ "-l" ∷ [];
  command = "";
  cwd = "/tmp";
  env = ("B", "2") ∷ ("A", "1") ∷ [];
}

abbrev list_files_cmd : Cmd
list_files_cmd = record {
  argv = "ls" ∷ "-l" ∷ [];
  dir = "/tmp";
  env = some ("HOME=/root" ∷ "A=1" ∷ "B=2" ∷ []);
}

launch-list_files : launch os list_files false ≡ ok ("a1", list_files_cmd, 42)
unfolding launch command_for with_env contains_char lookup
launch-list_files = refl

launch-IsAllowed_example : IsAllowed false list_files false list_files_cmd
launch-IsAllowed_example =
    launch-IsAllowed os list_files false "a1" list_files_cmd 42 launch-list_files

abbrev idle : Manager
idle = new 2 64 0 false

abbrev busy : Manager
busy = (start os 5 list_files idle).1

abbrev ls : Process
ls = new_process idle "a1" list_files_cmd 42 5

busy-Reach : Reach idle busy
unfolding lookup
busy-Reach = next here (starts os 5 list_files (λ id e. refl))

ls_there : Points busy 0 ls
unfolding start launch command_for with_env contains_char lookup new_process
ls_there = refl

running-le-max_procs_example : (running busy.heap ≤ 2) × (busy.active ≡ held busy.heap) × Sound busy
running-le-max_procs_example = running-le-max_procs 2 64 0 false busy-Reach

get-running_example : get "a1" busy ≡ ok (0, ls)
unfolding new_process
get-running_example = get-running 2 64 0 false busy-Reach 0 ls ls_there refl
