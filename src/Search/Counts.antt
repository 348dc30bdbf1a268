-- ===== src/Search/Counts.antt =====
-- The active sessions of internal/searchmgr/manager.go, counted.
use open_remote_commander.Prelude.{
  ℕ, zero, suc, ◌<◌, ◌≤◌, ◌≡◌, refl, sym, ap, subst, true, false, List, [], ◌∷◌, ◌++◌, arith,
  Option, none, some, Map, length, get_elem?, str_eq, insert, delete, All, Bool-cases, inl, inr,
  String,
}
use open_remote_commander.Prelude.Int.{ℤ}
use open_remote_commander.Search.{
  Manager, Session, Match, Request, Library, active_sessions, counted, start, expire, get_more,
  stop, modify,
}

-- A change of a session that does not make it active again.
abbrev pub Calms : (Session → Session) → Type 0
Calms f = (s : Session) → s.done ≡ true → (f s).done ≡ true

-- What can happen to a manager, in any order: the calls, the timers, and what the walks do.
pub data Step (m : Manager) : Manager → Type 0 where
  starts : (lib : Library) (q : Request) → Step m (start lib q m).1
  asks : (id : String) (n : ℤ) → Step m (get_more id n m).1
  stops : (id : String) → Step m (stop id m).1
  expires : (i : ℕ) (id : String) → Step m (expire i id m)
  adds :
      (i : ℕ) (v : Match)
      → Step m
          (record m { heap = modify i (λ s. record s { results = s.results ++ v ∷ [] }) m.heap })
  ends :
      (i : ℕ) (e : Option String)
      → Step m (record m { heap = modify i (λ s. record s { done = true; error = e }) m.heap })

pub data Reach (m : Manager) : Manager → Type 0 where
  here : Reach m m
  next : {n k : Manager} → Reach m n → Step n k → Reach m k

-- Every identifier stands for a session object, and the active ones are within the limit.
pub record IsSound (m : Manager) : Type 0 where
  pub stored : All (λ (e : String × ℕ). e.1 < length m.heap) m.sessions
  pub limited : active_sessions m.heap m.sessions ≤ m.max_sessions

get-append :
    (heap : List Session) (s : Session) (i : ℕ)
    → i < length heap
    → get_elem? (heap ++ s ∷ []) i ≡ get_elem? heap i
get-append [] s i h = absurd (omega arith)
get-append (x ∷ heap) s zero h = refl
get-append (x ∷ heap) s (suc i) h = get-append heap s i (omega arith)

pub active-append :
    (heap : List Session) (s : Session) (m : Map ℕ)
    → All (λ (e : String × ℕ). e.1 < length heap) m
    → active_sessions (heap ++ s ∷ []) m ≡ active_sessions heap m
unfolding active_sessions
active-append heap s [] h = refl
active-append heap s ((id, i) ∷ m) h =
    omega (arith, active-append heap s m h.1, ap counted (get-append heap s i h.0))

counted-le : (o : Option Session) → counted o ≤ 1
counted-le none = omega arith
counted-le (some s) = ground arith

pub active-insert-le :
    (heap : List Session) (id : String) (i : ℕ) (m : Map ℕ)
    → active_sessions heap (insert id i m) ≤ suc (active_sessions heap m)
unfolding active_sessions insert
active-insert-le heap id i [] = omega (arith, counted-le (get_elem? heap i))
active-insert-le heap id i ((k, j) ∷ m) = elim (Bool-cases (str_eq k id)) [
  | inl same ↦ rw same (omega (arith, counted-le (get_elem? heap i)))
  | inr other ↦ rw other (omega (arith, active-insert-le heap id i m))
]

pub active-delete-le :
    (heap : List Session) (id : String) (m : Map ℕ)
    → active_sessions heap (delete id m) ≤ active_sessions heap m
unfolding active_sessions delete
active-delete-le heap id [] = omega arith
active-delete-le heap id ((k, j) ∷ m) = elim (Bool-cases (str_eq k id)) [
  | inl same ↦ rw same (omega (arith, active-delete-le heap id m))
  | inr other ↦ rw other (omega (arith, active-delete-le heap id m))
]

counted-done : (s : Session) → s.done ≡ true → counted (some s) ≡ 0
counted-done s h = rw h refl

counted-live : (s : Session) → s.done ≡ false → counted (some s) ≡ 1
counted-live s h = rw h refl

calm-le : (f : Session → Session) (s : Session) → Calms f → counted (some (f s)) ≤ counted (some s)
calm-le f s calm = elim (Bool-cases s.done) [
  | inl done ↦ omega (arith, counted-done (f s) (calm s done))
  | inr live ↦ omega (arith, counted-live s live, counted-le (some (f s)))
]

get-modify-le :
    (f : Session → Session) (i j : ℕ) (heap : List Session)
    → Calms f
    → counted (get_elem? (modify i f heap) j) ≤ counted (get_elem? heap j)
unfolding modify
get-modify-le f i j [] calm = omega arith
get-modify-le f zero zero (s ∷ heap) calm = calm-le f s calm
get-modify-le f zero (suc j) (s ∷ heap) calm = omega arith
get-modify-le f (suc i) zero (s ∷ heap) calm = omega arith
get-modify-le f (suc i) (suc j) (s ∷ heap) calm = get-modify-le f i j heap calm

length-modify :
    (f : Session → Session) (i : ℕ) (heap : List Session) → length (modify i f heap) ≡ length heap
unfolding modify
length-modify f i [] = refl
length-modify f zero (s ∷ heap) = refl
length-modify f (suc i) (s ∷ heap) = ap suc (length-modify f i heap)

active-modify-le :
    (f : Session → Session) (i : ℕ) (heap : List Session) (m : Map ℕ)
    → Calms f
    → active_sessions (modify i f heap) m ≤ active_sessions heap m
unfolding active_sessions
active-modify-le f i heap [] calm = omega arith
active-modify-le f i heap ((k, j) ∷ m) calm =
    omega (arith, get-modify-le f i j heap calm, active-modify-le f i heap m calm)

-- A session object changes.
pub modify-IsSound :
    (f : Session → Session) (i : ℕ) (m : Manager)
    → Calms f
    → IsSound m
    → IsSound (record m { heap = modify i f m.heap })
modify-IsSound f i m calm v = record {
  stored =
      subst (λ n. All (λ (e : String × ℕ). e.1 < n) m.sessions) (sym (length-modify f i m.heap))
        v.stored;
  limited = omega (arith, active-modify-le f i m.heap m.sessions calm, v.limited);
}

pub stored-insert :
    (n : ℕ) (id : String) (i : ℕ) (m : Map ℕ)
    → i < n
    → All (λ (e : String × ℕ). e.1 < n) m
    → All (λ (e : String × ℕ). e.1 < n) (insert id i m)
unfolding insert
stored-insert n id i [] h v = (h, tt)
stored-insert n id i ((k, j) ∷ m) h v = elim (Bool-cases (str_eq k id)) [
  | inl same ↦ rw same (h, v.1)
  | inr other ↦ rw other (v.0, stored-insert n id i m h v.1)
]

pub stored-grow :
    (n : ℕ) (m : Map ℕ)
    → All (λ (e : String × ℕ). e.1 < n) m
    → All (λ (e : String × ℕ). e.1 < suc n) m
stored-grow n [] v = tt
stored-grow n ((k, j) ∷ m) v = (omega (arith, v.0), stored-grow n m v.1)

pub stored-delete :
    (n : ℕ) (id : String) (m : Map ℕ)
    → All (λ (e : String × ℕ). e.1 < n) m
    → All (λ (e : String × ℕ). e.1 < n) (delete id m)
unfolding delete
stored-delete n id [] v = tt
stored-delete n id ((k, j) ∷ m) v = elim (Bool-cases (str_eq k id)) [
  | inl same ↦ rw same (stored-delete n id m v.1)
  | inr other ↦ rw other (v.0, stored-delete n id m v.1)
]
