-- ===== src/Process/Manager/Cases.antt =====
-- The branches of `Start` and `Terminate`, as rules for a property of the state after the call.
use open_remote_commander.Prelude.{
  ℕ, ◌<◌, ◌≡◌, String, Result, ok, arith, leb, inl, inr, Bool-cases, Result-cases, is_some,
}
use open_remote_commander.Process.Command.{Error, Cmd, Os, StartRequest}
use open_remote_commander.Process.Manager.{
  Manager, modify, launch, register, start, get, terminate, cancel,
}

pub start_cases {ℓ} :
    (P : Manager → Type ℓ) (os : Os) (now : ℕ) (req : StartRequest) (m : Manager)
    → P m
    → ((id : String) (cmd : Cmd) (pid : ℕ)
        → m.active < m.max_procs
        → launch os req m.allow_shell ≡ ok (id, cmd, pid)
        → P (register m id cmd pid now))
    → P (start os now req m).1
unfolding start
start_cases P os now req m same started = elim (Bool-cases (leb m.max_procs m.active)) [
  | inl full ↦ rw full same
  | inr free ↦ elim (Result-cases (launch os req m.allow_shell)) [
    | inl ((id, cmd, pid), e) ↦ rw (free, e) (started id cmd pid (ground arith) e)
    | inr (c, e) ↦ rw (free, e) same
  ]
]

pub terminate_cases {ℓ} :
    (P : Manager → Type ℓ) (kill : ℕ → Result Error (Unit {0})) (id : String) (m : Manager)
    → P m
    → ((i : ℕ) → P (record m { heap = modify i cancel m.heap }))
    → P (terminate kill id m).1
unfolding terminate
terminate_cases P kill id m same cancelled = elim (Result-cases (get id m)) [
  | inl ((i, p), e) ↦ elim (Bool-cases (is_some p.exit_code)) [
    | inl done ↦ rw (e, terminate, done) same
    | inr live ↦ rw (e, terminate, live) (cancelled i)
  ]
  | inr (c, e) ↦ rw (e, terminate) same
]
