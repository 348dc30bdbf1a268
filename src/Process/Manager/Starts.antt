-- ===== src/Process/Manager/Starts.antt =====
-- What `Start` lets run, and what a start leaves behind on each outcome.
use open_remote_commander.Prelude.{
  ℕ, ◌+◌, ◌<◌, ◌≡◌, refl, ap, ◌∙◌, inl, inr, String, List, [], ◌∷◌, ◌++◌, none, some, Bool, length,
  get_elem?, arith, lookup, insert, lookup-insert, str_eq_self, Result, ok, err, Result-cases,
  >>=-eq-ok, Bool-cases, leb, if◌then◌else◌,
}
use open_remote_commander.Process.Command.{Error, Cmd, Os, StartRequest, command_for, with_env}
use open_remote_commander.Process.Command.Allowed.{
  IsAllowed, command_for-IsAllowed, argv-with_env, IsAllowed-argv,
}
use open_remote_commander.Process.Manager.{
  Process, Manager, StartResult, in_dir, launch, new_process, register, start, get,
}

-- What a successful `launch` has gone through, in order.
launch_steps :
    (os : Os) (req : StartRequest) (allow_shell : Bool) (id : String) (cmd : Cmd) (pid : ℕ)
    → launch os req allow_shell ≡ ok (id, cmd, pid)
    → (os.random_id ≡ ok id)
      × (bare : Cmd) × (command_for os.windows req allow_shell ≡ ok bare)
      × (with_env os.environ req.env (in_dir req.cwd bare) ≡ ok cmd)
      × (os.start cmd ≡ ok pid)
unfolding launch
launch_steps os req allow_shell id cmd pid e =
    let (id', e1, r1) = >>=-eq-ok os.random_id _ e in
    let (bare, e2, r2) = >>=-eq-ok (command_for os.windows req allow_shell) _ r1 in
    let (cmd', e3, r3) = >>=-eq-ok (with_env os.environ req.env (in_dir req.cwd bare)) _ r2 in
    let (u, e4, r4) = >>=-eq-ok os.stdin_pipe _ r3 in
    let (pid', e5, r5) = >>=-eq-ok (os.start cmd') _ r4 in
    (ground arith, bare, e2, ground arith, ground arith)

argv-in_dir : (cwd : String) (cmd : Cmd) → (in_dir cwd cmd).argv ≡ cmd.argv
argv-in_dir cwd cmd = ground arith

-- Whatever `Start` starts is a command that the policy allows: the request's own argument list, not
-- empty and within its bounds, or, only where the shell is enabled and no argument list is given,
-- the platform's shell with the request's command.
pub launch-IsAllowed :
    (os : Os) (req : StartRequest) (allow_shell : Bool) (id : String) (cmd : Cmd) (pid : ℕ)
    → launch os req allow_shell ≡ ok (id, cmd, pid)
    → IsAllowed os.windows req allow_shell cmd
launch-IsAllowed os req allow_shell id cmd pid e =
    let (e1, bare, e2, e3, e4) = launch_steps os req allow_shell id cmd pid e in
    IsAllowed-argv os.windows req allow_shell bare cmd
      (argv-with_env os.environ req.env (in_dir req.cwd bare) cmd e3 ∙ argv-in_dir req.cwd bare)
      (command_for-IsAllowed os.windows req allow_shell bare e2)

-- The manager before a start, against the outcome and the manager after it.
abbrev pub Started : Manager → Result Error StartResult × Manager → Type 0
Started m (err e, n) = n ≡ m
Started m (ok r, n) =
    (m.active < m.max_procs)
    × (n.active ≡ m.active + 1)
    × (p : Process) × (get r.process_id n ≡ ok (length m.heap, p))
    × (p.pid ≡ r.pid)
    × (p.exit_code ≡ none)

get_elem?-last : (ps : List Process) (p : Process) → get_elem? (ps ++ p ∷ []) (length ps) ≡ some p
get_elem?-last [] p = refl
get_elem?-last (q ∷ ps) p = get_elem?-last ps p

register-Started :
    (id : String) (cmd : Cmd) (pid now : ℕ) (m : Manager)
    → m.active < m.max_procs
    → Started m (ok (record { process_id = id; pid = pid }), register m id cmd pid now)
unfolding register get
register-Started id cmd pid now m free =
    let p : Process = new_process m id cmd pid now in
    let found : lookup id (insert id (length m.heap) m.procs) ≡ some (length m.heap) =
      lookup-insert id id (length m.heap) m.procs
      ∙ ap (λ (b : Bool). if b then some (length m.heap) else lookup id m.procs) (str_eq_self id) in
    (free, refl, p, ground (arith, found, get_elem?-last m.heap p), refl, refl)

-- When `Start` fails, the manager is as it was. When it succeeds, a slot was free, exactly one is
-- taken, and the identifier that it returns leads to a new process with the returned pid whose exit
-- is not recorded.
pub start-Started :
    (os : Os) (now : ℕ) (req : StartRequest) (m : Manager) → Started m (start os now req m)
unfolding start
start-Started os now req m = elim (Bool-cases (leb m.max_procs m.active)) [
  | inl full ↦ rw full refl
  | inr free ↦ elim (Result-cases (launch os req m.allow_shell)) [
    | inl ((id, cmd, pid), e) ↦ rw (free, e) (register-Started id cmd pid now m (ground arith))
    | inr (c, e) ↦ rw (free, e) refl
  ]
]
