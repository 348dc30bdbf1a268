-- ===== src/Relay/Counts.antt =====
-- The places that internal/relay/hub.go gives to the calls of a connection.
use mathlib.Core.Option.{some-injective}
use open_remote_commander.Prelude.{
  ℕ, zero, suc, ◌+◌, ◌<◌, ◌≤◌, ◌≡◌, refl, sym, ap, subst, ◌∙◌, Bool, true, false, List, [], ◌∷◌,
  arith, some, Map, length, get_elem?, update_at, ◌==◌, ==_iff, if◌then◌else◌, All, Bool-cases, inl,
  inr,
}
use open_remote_commander.Relay.{
  DeviceConn, Stage, waits, holds, pends, leaves, frees, over, Call, Hub,
}
use open_remote_commander.Relay.Steps.{Runs, Has}

-- A call that has a place.
abbrev pub busy : Stage → ℕ
busy waits = 0
busy holds = 1
busy pends = 1
busy leaves = 1
busy frees = 1
busy over = 0

abbrev pub weight : ℕ → Call → ℕ
weight i c = if c.conn == i then busy c.stage else 0

unfoldable pub held : ℕ → List Call → ℕ
held i [] = 0
held i (c ∷ cs) = weight i c + held i cs

-- Every connection counts the calls that hold a place of it, and these are within the limit.
pub record IsCounted (h : Hub) : Type 0 where
  pub counted : (i : ℕ) (d : DeviceConn) → Has h i d → d.in_flight ≡ held i h.calls
  pub bounded : (i : ℕ) (d : DeviceConn) → Has h i d → d.in_flight ≤ h.max_in_flight
  pub placed : All (λ (c : Call). c.conn < length h.conns) h.calls

suc_eq : (i j : ℕ) → (suc i == suc j) ≡ (i == j)
suc_eq i j = ground arith

module _ {A : Type 0} (f : A → A) where
  pub get-update :
      (i j : ℕ) (xs : List A) (y : A)
      → get_elem? (update_at f i xs) j ≡ some y
      → (x : A) × (get_elem? xs j ≡ some x) × (y ≡ (if i == j then f x else x))
  unfolding update_at
  get-update i j [] y h = cc h
  get-update zero zero (x ∷ xs) y h = (x, refl, sym (some-injective (f x) y h))
  get-update zero (suc j) (x ∷ xs) y h =
      let apart : (zero == suc j) ≡ false = ground arith in
      (y, h, ap (λ b. if b then f y else y) (sym apart))
  get-update (suc i) zero (x ∷ xs) y h =
      let apart : (suc i == zero) ≡ false = ground arith in
      (x, refl, sym (some-injective x y h) ∙ ap (λ b. if b then f x else x) (sym apart))
  get-update (suc i) (suc j) (x ∷ xs) y h =
      let (z, at, e) = get-update i j xs y h in
      (z, at, e ∙ ap (λ b. if b then f z else z) (sym (suc_eq i j)))

  pub length-update : (i : ℕ) (xs : List A) → length (update_at f i xs) ≡ length xs
  unfolding update_at
  length-update i [] = refl
  length-update zero (x ∷ xs) = refl
  length-update (suc i) (x ∷ xs) = ap suc (length-update i xs)

-- A call changes.
held-update :
    (f : Call → Call) (i k : ℕ) (cs : List Call) (c : Call)
    → get_elem? cs k ≡ some c
    → held i (update_at f k cs) + weight i c ≡ held i cs + weight i (f c)
unfolding update_at held
held-update f i k [] c h = cc h
held-update f i zero (b ∷ cs) c h = let e : b ≡ c = some-injective b c h in rw e (omega arith)
held-update f i (suc k) (b ∷ cs) c h = omega (arith, held-update f i k cs c h)

-- Calls change that keep their connection and their place.
abbrev pub Steady : (Call → Call) → Type 0
Steady f = (c : Call) → ((f c).conn ≡ c.conn) × (busy (f c).stage ≡ busy c.stage)

pub held-Steady :
    (f : Call → Call) (i k : ℕ) (cs : List Call) → Steady f → held i (update_at f k cs) ≡ held i cs
unfolding update_at held
held-Steady f i k [] steady = refl
held-Steady f i zero (b ∷ cs) steady = let (same, place) = steady b in rw (same, place) refl
held-Steady f i (suc k) (b ∷ cs) steady = omega (arith, held-Steady f i k cs steady)

pub placed-update :
    (f : Call → Call) (n k : ℕ) (cs : List Call)
    → ((c : Call) → (f c).conn ≡ c.conn)
    → All (λ (c : Call). c.conn < n) cs
    → All (λ (c : Call). c.conn < n) (update_at f k cs)
unfolding update_at
placed-update f n k [] same v = tt
placed-update f n zero (b ∷ cs) same v = (omega (arith, same b, v.0), v.1)
placed-update f n (suc k) (b ∷ cs) same v = (v.0, placed-update f n k cs same v.1)

module _ (h : Hub) (v : IsCounted h) where
  -- A connection changes that keeps its count.
  pub conn-IsCounted :
      (g : DeviceConn → DeviceConn) (i : ℕ) (devices : Map ℕ)
      → ((d : DeviceConn) → (g d).in_flight ≡ d.in_flight)
      → IsCounted (record h { conns = update_at g i h.conns; devices = devices })
  conn-IsCounted g i devices same = record {
    counted = λ j d at.
        let (e, there, is) = get-update g i j h.conns d at in
        ap (λ (d : DeviceConn). d.in_flight) is ∙ kept (i == j) e ∙ v.counted j e there;
    bounded = λ j d at.
        let (e, there, is) = get-update g i j h.conns d at in
        let small = v.bounded j e there in
        let k = ap (λ (d : DeviceConn). d.in_flight) is ∙ kept (i == j) e in
        omega (arith, k, small);
    placed =
        subst (λ n. All (λ (c : Call). c.conn < n) h.calls) (sym (length-update g i h.conns))
          v.placed;
  }
    where
      kept : (b : Bool) (e : DeviceConn) → (if b then g e else e).in_flight ≡ e.in_flight
      kept true e = same e
      kept false e = refl

  -- The calls change, and each connection keeps its count.
  pub calls-IsCounted :
      (calls : List Call)
      → ((i : ℕ) → held i calls ≡ held i h.calls)
      → All (λ (c : Call). c.conn < length h.conns) calls
      → IsCounted (record h { calls = calls })
  calls-IsCounted calls same placed = record {
    counted = λ i d at. v.counted i d at ∙ sym (same i);
    bounded = v.bounded;
    placed = placed;
  }

  pub steady-IsCounted :
      (f : Call → Call) (k : ℕ) → Steady f → IsCounted (record h { calls = update_at f k h.calls })
  steady-IsCounted f k steady =
      calls-IsCounted (update_at f k h.calls) (λ i. held-Steady f i k h.calls steady)
        (placed-update f (length h.conns) k h.calls (λ c. (steady c).0) v.placed)

  -- One call changes its stage, and not its place.
  pub one-IsCounted :
      (f : Call → Call) (k : ℕ) (c : Call)
      → Runs h k c
      → ((b : Call) → (f b).conn ≡ b.conn)
      → busy (f c).stage ≡ busy c.stage
      → IsCounted (record h { calls = update_at f k h.calls })
  one-IsCounted f k c runs same place =
      calls-IsCounted (update_at f k h.calls)
        (λ i.
          let e : weight i (f c) ≡ weight i c = rw (same c, place) refl in
          omega (arith, held-update f i k h.calls c runs, e))
        (placed-update f (length h.conns) k h.calls same v.placed)

  -- The count of a connection after one call has taken a place or given it back.
  moved_count :
      (f : Call → Call) (g : DeviceConn → DeviceConn) (k j : ℕ) (c : Call) (d : DeviceConn)
      → Runs h k c
      → (f c).conn ≡ c.conn
      → ((d : DeviceConn)
          → Has h c.conn d
          → ((g d).in_flight + busy c.stage ≡ d.in_flight + busy (f c).stage)
            × ((g d).in_flight ≤ h.max_in_flight))
      → Has h j d
      → ((if c.conn == j then g d else d).in_flight ≡ held j (update_at f k h.calls))
        × ((if c.conn == j then g d else d).in_flight ≤ h.max_in_flight)
  moved_count f g k j c d runs same moved there =
      let change = held-update f j k h.calls c runs in
      let before = v.counted j d there in
      elim (Bool-cases (c.conn == j)) [
        | inl here_ ↦
            let at : c.conn ≡ j = (==_iff c.conn j).0 here_ in
            let (balance, small) = moved d (subst (λ i. Has h i d) (sym at) there) in
            let old : weight j c ≡ busy c.stage = rw here_ refl in
            let new : weight j (f c) ≡ busy (f c).stage = rw (same, here_) refl in
            rw here_ (omega (arith, change, before, balance, old, new), small)
        | inr elsewhere ↦
            let old : weight j c ≡ 0 = rw elsewhere refl in
            let new : weight j (f c) ≡ 0 = rw (same, elsewhere) refl in
            rw elsewhere (omega (arith, change, before, old, new), v.bounded j d there)
      ]

  -- One call takes a place or gives it back, and its connection counts it.
  pub move-IsCounted :
      (f : Call → Call) (g : DeviceConn → DeviceConn) (k : ℕ) (c : Call)
      → Runs h k c
      → ((b : Call) → (f b).conn ≡ b.conn)
      → ((d : DeviceConn)
          → Has h c.conn d
          → ((g d).in_flight + busy c.stage ≡ d.in_flight + busy (f c).stage)
            × ((g d).in_flight ≤ h.max_in_flight))
      → IsCounted (record h { conns = update_at g c.conn h.conns; calls = update_at f k h.calls })
  move-IsCounted f g k c runs same moved = record {
    counted = λ j d at.
        let (e, there, is) = get-update g c.conn j h.conns d at in
        ap (λ (d : DeviceConn). d.in_flight) is
        ∙ (moved_count f g k j c e runs (same c) moved there).0;
    bounded = λ j d at.
        let (e, there, is) = get-update g c.conn j h.conns d at in
        subst (λ (d : DeviceConn). d.in_flight ≤ h.max_in_flight) (sym is)
          (moved_count f g k j c e runs (same c) moved there).1;
    placed = placed-update f (length (update_at g c.conn h.conns)) k h.calls same (
        subst (λ n. All (λ (c : Call). c.conn < n) h.calls) (sym (length-update g c.conn h.conns))
          v.placed);
  }
