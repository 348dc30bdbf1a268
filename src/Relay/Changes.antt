-- ===== src/Relay/Changes.antt =====
-- What the operations of internal/relay/hub.go change in the counts of places.
use mathlib.Core.Option.{some-injective}
use open_remote_commander.Prelude.{
  ℕ, zero, suc, ◌+◌, ◌<◌, ◌≡◌, refl, sym, ap, subst, ◌∙◌, String, Bool, true, false, List, [], ◌∷◌,
  ◌++◌, arith, none, some, Map, length, length-append, get_elem?, update_at, ◌==◌, str_eq,
  if◌then◌else◌, lookup, insert, All, All-append, Bool-cases, Option-cases, ◌⊎◌, inl, inr, is_some,
}
use open_remote_commander.Relay.{
  Error, Answer, DeviceConn, waits, Call, Hub, is_done, conn_of, mark, begin_close, offer,
  offer_all, register, disconnect, enter, open_, closed,
}
use open_remote_commander.Relay.Steps.{Has}
use open_remote_commander.Relay.Counts.{
  weight, held, IsCounted, Steady, conn-IsCounted, calls-IsCounted, steady-IsCounted,
}

held-fresh : (n : ℕ) (cs : List Call) → All (λ (c : Call). c.conn < n) cs → held n cs ≡ 0
unfolding held
held-fresh n [] v = refl
held-fresh n (c ∷ cs) v =
    let apart : (c.conn == n) ≡ false = ground (arith, v.0) in
    let rest = held-fresh n cs v.1 in rw apart (omega (arith, rest))

held-append : (i : ℕ) (cs : List Call) (c : Call) → held i (cs ++ c ∷ []) ≡ held i cs + weight i c
unfolding held
held-append i [] c = omega arith
held-append i (b ∷ cs) c = omega (arith, held-append i cs c)

get-lt : {A : Type 0} (xs : List A) (i : ℕ) (x : A) → get_elem? xs i ≡ some x → i < length xs
get-lt [] i x h = cc h
get-lt (y ∷ xs) zero x h = omega arith
get-lt (y ∷ xs) (suc i) x h = omega (arith, get-lt xs i x h)

-- An entry of a longer list is an old one or the new one.
get-append :
    {A : Type 0} (xs : List A) (z : A) (i : ℕ) (x : A)
    → get_elem? (xs ++ z ∷ []) i ≡ some x
    → (get_elem? xs i ≡ some x) ⊎ ((i ≡ length xs) × (x ≡ z))
get-append [] z zero x h = inr (refl, sym (some-injective z x h))
get-append [] z (suc i) x h = cc h
get-append (y ∷ xs) z zero x h = inl h
get-append (y ∷ xs) z (suc i) x h = elim (get-append xs z i x h) [
  | inl old ↦ inl old
  | inr new ↦ inr (ap suc new.0, new.1)
]

placed-longer :
    (n : ℕ) (cs : List Call)
    → All (λ (c : Call). c.conn < n) cs
    → All (λ (c : Call). c.conn < suc n) cs
placed-longer n [] v = tt
placed-longer n (c ∷ cs) v = (omega (arith, v.0), placed-longer n cs v.1)

-- A new connection has no calls.
append-IsCounted :
    (h : Hub) (d : DeviceConn) (devices : Map ℕ)
    → d.in_flight ≡ 0
    → IsCounted h
    → IsCounted (record h { conns = h.conns ++ d ∷ []; devices = devices })
append-IsCounted h d devices empty v = record {
  counted = λ i e at. elim (get-append h.conns d i e at) [
    | inl old ↦ v.counted i e old
    | inr (last, new) ↦
        ap (λ (d : DeviceConn). d.in_flight) new
        ∙ empty
        ∙ sym (ap (λ n. held n h.calls) last ∙ held-fresh (length h.conns) h.calls v.placed)
  ];
  bounded = λ i e at. elim (get-append h.conns d i e at) [
    | inl old ↦ v.bounded i e old
    | inr (last, new) ↦
        let none_yet = ap (λ (d : DeviceConn). d.in_flight) new ∙ empty in omega (arith, none_yet)
  ];
  placed =
      let longer : length (h.conns ++ d ∷ []) ≡ suc (length h.conns) =
        omega (arith, length-append h.conns (d ∷ [])) in
      subst (λ n. All (λ (c : Call). c.conn < n) h.calls) (sym longer)
        (placed-longer (length h.conns) h.calls v.placed);
}

mark-in_flight : (e : Error) (d : DeviceConn) → (mark e d).in_flight ≡ d.in_flight
mark-in_flight e d = elim (Bool-cases (is_done d.phase)) [
  | inl done ↦ rw done refl
  | inr live ↦ rw live refl
]

pub begin_close-IsCounted :
    (i : ℕ) (e : Error) (h : Hub) → IsCounted h → IsCounted (begin_close i e h)
unfolding begin_close
begin_close-IsCounted i e h v = conn-IsCounted h v (mark e) i h.devices (mark-in_flight e)

pub offer-Steady : (a : Answer) → Steady (offer a)
offer-Steady a c = elim (Bool-cases (is_some c.chan)) [
  | inl full ↦ rw full (refl, refl)
  | inr free ↦ rw free (refl, refl)
]

pub offer_all-IsCounted :
    (h : Hub) (a : Answer) (pending : Map ℕ)
    → IsCounted h
    → IsCounted (record h { calls = offer_all a pending h.calls })
unfolding offer_all
offer_all-IsCounted h a [] v = v
offer_all-IsCounted h a ((id, k) ∷ pending) v =
    offer_all-IsCounted (record h { calls = update_at (offer a) k h.calls }) a pending
      (steady-IsCounted h v (offer a) k (offer-Steady a))

pub register-IsCounted :
    (device_id owner : String) (h : Hub) → IsCounted h → IsCounted (register device_id owner h)
unfolding register
register-IsCounted device_id owner h v =
    let d : DeviceConn = record {
      device_id = device_id;
      owner = owner;
      in_flight = 0;
      pending = [];
      phase = open_;
    } in
    let added = append-IsCounted h d (insert device_id (length h.conns) h.devices) refl v in
    elim (Option-cases (lookup device_id h.devices)) [
      | inl fresh ↦ rw (fresh, register) added
      | inr (old, known) ↦ rw (known, register) (begin_close-IsCounted old closed _ added)
    ]

pub disconnect-IsCounted : (id : String) (h : Hub) → IsCounted h → IsCounted (disconnect id h)
unfolding disconnect
disconnect-IsCounted id h v = elim (Option-cases (conn_of id h)) [
  | inl missing ↦ rw (missing, disconnect) v
  | inr (p, found) ↦ rw (found, disconnect) (begin_close-IsCounted p.0 closed h v)
]

conn_of-Has : (id : String) (h : Hub) (p : ℕ × DeviceConn) → conn_of id h ≡ some p → Has h p.0 p.1
unfolding conn_of
conn_of-Has id h p = elim (Option-cases (lookup id h.devices)) [
  | inl missing ↦ rw (missing, conn_of) λ e. cc e
  | inr (i, known) ↦ elim (Option-cases (get_elem? h.conns i)) [
    | inl gone ↦ rw (known, gone, conn_of) λ e. cc e
    | inr (d, there) ↦
        rw (known, there, conn_of)
          λ e. subst (λ (p : ℕ × DeviceConn). Has h p.0 p.1) (some-injective (i, d) p e) there
  ]
]

pub enter-IsCounted : (owner id : String) (h : Hub) → IsCounted h → IsCounted (enter owner id h).1
unfolding enter
enter-IsCounted owner id h v = elim (Option-cases (conn_of id h)) [
  | inl missing ↦ rw (missing, enter) v
  | inr (p, found) ↦ elim (Bool-cases (str_eq p.1.owner owner)) [
    | inr foreign ↦ rw (found, foreign, enter) v
    | inl own ↦
        rw (found, own, enter)
          (let c : Call = record {
            conn = p.0;
            id = "";
            chan = none;
            stage = waits;
            result = none;
          } in
            calls-IsCounted h v (h.calls ++ c ∷ [])
              (λ i.
                let nothing : weight i c ≡ 0 = waiting-weight (p.0 == i) in
                omega (arith, held-append i h.calls c, nothing))
              (All-append (λ (c : Call). c.conn < length h.conns) h.calls (c ∷ []) v.placed
                (get-lt h.conns p.0 p.1 (conn_of-Has id h p found), tt)))
  ]
]
  where
    waiting-weight : (b : Bool) → ◌≡◌ {A = ℕ} (if b then 0 else 0) 0
    waiting-weight true = refl
    waiting-weight false = refl
