-- ===== src/Control/Driven.antt =====
-- The handlers of internal/controlplane/http.go change the store by calls of its methods only.
use open_remote_commander.Prelude.{ℕ, ◌≡◌, refl, ap, ◌∙◌, String, List, [], ◌∷◌, ◌++◌}
use open_remote_commander.Store.Memory.{Memory, step, run, Call}
use open_remote_commander.Control.{Env, Control, Request}
use open_remote_commander.Control.Calls.Answered.{handle_lem}
use open_remote_commander.Control.Routes.{handle, serve_all}

-- The store comes from the other one by calls of its methods.
abbrev pub Driven : Env → Memory → Memory → Type 0
Driven env m n = (cs : List (ℕ × Call)) × (run env.hash m cs ≡ n)

run-append :
    (hash : String → String) (cs ds : List (ℕ × Call)) (m : Memory)
    → run hash m (cs ++ ds) ≡ run hash (run hash m cs) ds
unfolding run
run-append hash [] ds m = refl
run-append hash (c ∷ cs) ds m = run-append hash cs ds (step hash m c)

handle-Driven :
    (env : Env) (r : Request) (s : Control) → Driven env s.memory (handle env r s).1.memory
unfolding run
handle-Driven env r s =
    handle_lem env r (λ _ _ n. Driven env s.memory n) s (λ _ _. ([], refl))
      (λ c _ _ made tells. ((r.stored_at, c) ∷ [], refl))

pub serve_all-Driven :
    (env : Env) (rs : List Request) (s : Control) → Driven env s.memory (serve_all env rs s).memory
unfolding serve_all run
serve_all-Driven env [] s = ([], refl)
serve_all-Driven env (r ∷ rs) s =
    let (cs, e) = handle-Driven env r s in
    let (ds, f) = serve_all-Driven env rs (handle env r s).1 in
    (cs ++ ds, run-append env.hash cs ds s.memory ∙ ap (λ m. run env.hash m ds) e ∙ f)
