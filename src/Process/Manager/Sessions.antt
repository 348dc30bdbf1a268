-- ===== src/Process/Manager/Sessions.antt =====
-- Session identifiers: what `Start` registers, and that a session stays while its process runs.
use open_remote_commander.Prelude.{
  ℕ, zero, suc, ◌≡◌, refl, sym, ap, ◌∙◌, ◌⊎◌, inl, inr, String, List, [], ◌∷◌, ◌++◌, none, some,
  Bool, true, is_some, length, get_elem?, arith, lookup, lookup-insert, lookup-delete, eq_iff, ok,
  Map, All-get_elem?,
}
use open_remote_commander.Process.Command.{Cmd, Os, StartRequest}
use open_remote_commander.Process.Manager.Cases.{start_cases, terminate_cases}
use open_remote_commander.Process.Manager.{
  lingering, ended, Process, Manager, new, modify, new_process, register, launch, exited, at_stage,
  exit, release, forget, output, output_into, cancel, cleanup_exited, sweep, get,
}
use open_remote_commander.Process.Manager.Steps.{
  starts, exits, Step, releases, forgets, outputs, terminates, cleans, Reach, here, next, Points,
}
use open_remote_commander.Process.Manager.Processes.{IsSound, Sound, running-le-max_procs}

-- A process whose exit is not recorded is found under its identifier.
abbrev pub Listed : Manager → Type 0
Listed m = (i : ℕ) (p : Process) → Points m i p → p.exit_code ≡ none → lookup p.id m.procs ≡ some i

get_elem?-modify :
    (i j : ℕ) (f : Process → Process) (ps : List Process) (q : Process)
    → get_elem? (modify i f ps) j ≡ some q
    → (p : Process) × (get_elem? ps j ≡ some p) × ((q ≡ p) ⊎ ((j ≡ i) × (q ≡ f p)))
unfolding modify
get_elem?-modify i j f [] q e = cc
get_elem?-modify zero zero f (p ∷ ps) q e = (p, refl, inr (refl, ground arith))
get_elem?-modify zero (suc j) f (p ∷ ps) q e = (q, e, inl refl)
get_elem?-modify (suc i) zero f (p ∷ ps) q e = (p, refl, inl (ground arith))
get_elem?-modify (suc i) (suc j) f (p ∷ ps) q e =
    let (p', at, alt) = get_elem?-modify i j f ps q e in
    (p', at, elim alt [ inl same ↦ inl same | inr (hit, made) ↦ inr (ap suc hit, made) ])

get_elem?-snoc :
    (ps : List Process) (x : Process) (i : ℕ) (q : Process)
    → get_elem? (ps ++ x ∷ []) i ≡ some q
    → (get_elem? ps i ≡ some q) ⊎ ((i ≡ length ps) × (q ≡ x))
get_elem?-snoc [] x zero q e = inr (refl, ground arith)
get_elem?-snoc [] x (suc i) q e = cc
get_elem?-snoc (p ∷ ps) x zero q e = inl e
get_elem?-snoc (p ∷ ps) x (suc i) q e = elim (get_elem?-snoc ps x i q e) [
  | inl old ↦ inl old
  | inr (at, made) ↦ inr (ap suc at, made)
]

launch-random_id :
    (os : Os) (req : StartRequest) (allow_shell : Bool) (id : String) (cmd : Cmd) (pid : ℕ)
    → launch os req allow_shell ≡ ok (id, cmd, pid)
    → os.random_id ≡ ok id
unfolding launch
launch-random_id os req allow_shell id cmd pid e = ground arith

register-Listed :
    (id : String) (cmd : Cmd) (pid now : ℕ) (m : Manager)
    → lookup id m.procs ≡ none
    → Listed m
    → Listed (register m id cmd pid now)
unfolding register
register-Listed id cmd pid now m fresh h i p at runs =
    elim (get_elem?-snoc m.heap (new_process m id cmd pid now) i p at) [
      | inl old ↦
          ground
            (arith, lookup-insert id p.id (length m.heap) m.procs, h i p old runs, eq_iff id p.id)
      | inr (last, made) ↦
          ground (arith, lookup-insert id p.id (length m.heap) m.procs, eq_iff id p.id)
    ]

-- A change of one object that adds no unrecorded exit and keeps the identifier.
modify-Listed :
    (m : Manager) (i : ℕ) (f : Process → Process)
    → ((p : Process) → (f p).exit_code ≡ none → p.exit_code ≡ none)
    → ((p : Process) → (f p).id ≡ p.id)
    → Listed m
    → Listed (record m { heap = modify i f m.heap })
modify-Listed m i f keeps same h j q at runs =
    let (p, old, alt) = get_elem?-modify i j f m.heap q at in
    elim alt [
      | inl e ↦ h j q (old ∙ ap some (sym e)) runs
      | inr (_, e) ↦
          ap (λ k. lookup k m.procs) (ap (λ (r : Process). r.id) e ∙ same p)
          ∙ h j p old (keeps p (ap (λ (r : Process). r.exit_code) (sym e) ∙ runs))
    ]

sweep-keeps :
    (older_than now : ℕ) (heap : List Process) (procs : Map ℕ) (k : String) (i : ℕ) (p : Process)
    → get_elem? heap i ≡ some p
    → p.exit_code ≡ none
    → lookup k procs ≡ some i
    → lookup k (sweep older_than now heap procs) ≡ some i
unfolding sweep lookup
sweep-keeps older_than now heap [] k i p at runs e = cc
sweep-keeps older_than now heap ((j, n) ∷ procs) k i p at runs e =
    ground (arith, sweep-keeps older_than now heap procs k i p at runs)

forget-Listed :
    (i : ℕ) (p : Process) (m : Manager)
    → Points m i p
    → is_some p.exit_code ≡ true
    → Listed m
    → Listed (forget i p.id m)
unfolding forget
forget-Listed i p m at done h j q there runs =
    let (p', old, alt) = get_elem?-modify i j (at_stage ended) m.heap q there in
    let found : lookup q.id m.procs ≡ some j =
      modify-Listed m i (at_stage ended) (λ r e. e) (λ r. refl) h j q there runs in
    let apart : j ≡ i → ⊥ = λ e.
      let same : some p' ≡ some p = sym old ∙ ap (get_elem? m.heap) e ∙ at in
      let code : p'.exit_code ≡ p.exit_code = ground arith in
      elim alt [ inl u ↦ ground arith | inr u ↦ ground arith ] in
    ground (arith, found, apart, lookup-delete p.id q.id m.procs, eq_iff p.id q.id)

Step-Listed : {m n : Manager} → Step m n → Sound m → Listed m → Listed n
unfolding exit release output cleanup_exited
Step-Listed {m} (starts os now req fresh) v h = start_cases Listed os now req m h λ id cmd pid _ e.
    register-Listed id cmd pid now m (fresh id (launch-random_id os req m.allow_shell id cmd pid e))
      h
Step-Listed {m} (exits i p e now at s) v h =
    modify-Listed m i (exited e now) (λ r u. cc) (λ r. refl) h
Step-Listed {m} (releases i p at s) v h =
    modify-Listed m i (at_stage lingering) (λ r u. u) (λ r. refl) h
Step-Listed {m} (forgets i p at s) v h =
    forget-Listed i p m at (ground (arith, All-get_elem? (IsSound m.max_buffer) m.heap i p v at)) h
Step-Listed {m} (outputs i prefix b) v h =
    modify-Listed m i (output_into prefix b) (λ r u. u) (λ r. refl) h
Step-Listed {m} (terminates kill id) v h =
    terminate_cases Listed kill id m h λ i. modify-Listed m i cancel (λ r u. u) (λ r. refl) h
Step-Listed {m} (cleans older_than now) v h =
    λ i p at runs. sweep-keeps older_than now m.heap m.procs p.id i p at runs (h i p at runs)

-- In every state that a new manager reaches, a process whose exit is not recorded is found by
-- `get`, and so by a read, a write or a termination, under the identifier that `Start` gave it.
pub get-running :
    (max_procs max_buffer max_runtime : ℕ) (allow_shell : Bool) {m : Manager}
    → Reach (new max_procs max_buffer max_runtime allow_shell) m
    → (i : ℕ) (p : Process) → Points m i p
    → p.exit_code ≡ none
    → get p.id m ≡ ok (i, p)
unfolding get
get-running max_procs max_buffer max_runtime allow_shell {m} r i p at runs =
    let found : lookup p.id m.procs ≡ some i = listed r i p at runs in ground arith
  where
    listed : {n : Manager} → Reach (new max_procs max_buffer max_runtime allow_shell) n → Listed n
    listed here = λ i p at runs. cc
    listed (next r st) =
        Step-Listed st (running-le-max_procs max_procs max_buffer max_runtime allow_shell r).2
          (listed r)
