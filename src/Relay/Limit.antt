-- ===== src/Relay/Limit.antt =====
-- The limit of calls in flight of internal/relay/hub.go, in every state that a hub comes to.
use mathlib.Core.Option.{some-injective}
use open_remote_commander.Prelude.{
  ℕ, zero, suc, ◌≤◌, ◌≡◌, refl, sym, ap, ◌∙◌, String, true, List, [], ◌∷◌, arith, some, get_elem?,
  update_at, ◌==◌, lookup, insert, delete, Bool-cases, Option-cases, inl, inr,
}
use open_remote_commander.Relay.{
  Frame, answered, broken, DeviceConn, holds, pends, leaves, frees, over, Call, Hub, is_done,
  new_hub, set_phase, unlist, offer, flush, at_stage, ends_with, take_place, give_place, acquire,
  give_up, make_pending, remove_pending, release, deliver, offline, unlisted, flushed,
}
use open_remote_commander.Relay.Steps.{
  acquires, gives_up, fails, pending_made, receives, stops, pending_removed, delivers, unlists,
  flushes, Runs, Step, Reach, here, next, registers, disconnects, enters, releases, closes,
}
use open_remote_commander.Relay.Counts.{
  busy, weight, held, IsCounted, conn-IsCounted, steady-IsCounted, one-IsCounted, move-IsCounted,
}
use open_remote_commander.Relay.Changes.{
  begin_close-IsCounted, disconnect-IsCounted, enter-IsCounted, offer-Steady, offer_all-IsCounted,
  register-IsCounted,
}

-- A call with a place is counted.
held-some :
    (k : ℕ) (c : Call) (cs : List Call)
    → get_elem? cs k ≡ some c
    → busy c.stage ≡ 1
    → 1 ≤ held c.conn cs
unfolding held
held-some k c [] h place = cc h
held-some zero c (b ∷ cs) h place =
    let e : b ≡ c = some-injective b c h in
    let same : (c.conn == c.conn) ≡ true = ground arith in
    let mine : weight c.conn c ≡ 1 = rw same place in rw e (omega (arith, mine))
held-some (suc k) c (b ∷ cs) h place = omega (arith, held-some k c cs h place)

make_pending-IsCounted :
    (k : ℕ) (c : Call) (d : DeviceConn) (id : String) (h : Hub)
    → Runs h k c
    → c.stage ≡ holds
    → IsCounted h
    → IsCounted (make_pending k c d id h)
unfolding make_pending give_up
make_pending-IsCounted k c d id h runs stage v = elim (Bool-cases (is_done d.phase)) [
  | inl done ↦
      rw (done, make_pending)
        (one-IsCounted h v (ends_with frees (broken offline)) k c runs (λ b. refl)
          (sym (ap busy stage)))
  | inr live ↦
      rw (live, make_pending)
        (let g : DeviceConn → DeviceConn = λ d. record d { pending = insert id k d.pending } in
          one-IsCounted (record h { conns = update_at g c.conn h.conns })
            (conn-IsCounted h v g c.conn h.devices (λ d. refl))
            (λ c. record c { id = id; stage = pends }) k c runs (λ b. refl) (sym (ap busy stage)))
]

deliver-IsCounted : (d : DeviceConn) (f : Frame) (h : Hub) → IsCounted h → IsCounted (deliver d f h)
unfolding deliver
deliver-IsCounted d f h v = elim (Option-cases (lookup f.id d.pending)) [
  | inl unknown ↦ rw (unknown, deliver) v
  | inr (k, known) ↦
      rw (known, deliver)
        (let a = answered f.result f.error in steady-IsCounted h v (offer a) k (offer-Steady a))
]

Step-IsCounted : {h g : Hub} → Step h g → IsCounted h → IsCounted g
unfolding acquire give_up remove_pending release unlist flush
Step-IsCounted {h} (registers device_id owner) v = register-IsCounted device_id owner h v
Step-IsCounted {h} (disconnects id) v = disconnect-IsCounted id h v
Step-IsCounted {h} (enters owner id) v = enter-IsCounted owner id h v
Step-IsCounted {h} (acquires k c d runs stage there room) v =
    move-IsCounted h v (at_stage holds) take_place k c runs (λ b. refl)
      (λ e at.
        let same : e ≡ d = some-injective e d (sym at ∙ there) in
        let free : busy c.stage ≡ 0 = ap busy stage in
        let count = ap (λ (d : DeviceConn). d.in_flight) same in
        (omega (arith, free), omega (arith, count, room)))
Step-IsCounted {h} (gives_up k c a runs stage) v =
    one-IsCounted h v (ends_with over a) k c runs (λ b. refl) (sym (ap busy stage))
Step-IsCounted {h} (fails k c a runs stage) v =
    one-IsCounted h v (ends_with frees a) k c runs (λ b. refl) (sym (ap busy stage))
Step-IsCounted {h} (pending_made k c d id runs stage there fresh) v =
    make_pending-IsCounted k c d id h runs stage v
Step-IsCounted {h} (receives k c a runs stage full) v =
    one-IsCounted h v (ends_with leaves a) k c runs (λ b. refl) (sym (ap busy stage))
Step-IsCounted {h} (stops k c a runs stage) v =
    one-IsCounted h v (ends_with leaves a) k c runs (λ b. refl) (sym (ap busy stage))
Step-IsCounted {h} (pending_removed k c runs stage) v =
    let g : DeviceConn → DeviceConn = λ d. record d { pending = delete c.id d.pending } in
    one-IsCounted (record h { conns = update_at g c.conn h.conns })
      (conn-IsCounted h v g c.conn h.devices (λ d. refl)) (at_stage frees) k c runs (λ b. refl)
      (sym (ap busy stage))
Step-IsCounted {h} (releases k c runs stage) v =
    move-IsCounted h v (at_stage over) give_place k c runs (λ b. refl)
      (λ d at.
        let place : busy c.stage ≡ 1 = ap busy stage in
        let some_ = held-some k c h.calls runs place in
        let count = v.counted c.conn d at in
        (omega (arith, place, some_, count), omega (arith, v.bounded c.conn d at)))
Step-IsCounted {h} (delivers i d f there valid) v = deliver-IsCounted d f h v
Step-IsCounted {h} (closes i e) v = begin_close-IsCounted i e h v
Step-IsCounted {h} (unlists i d e there phase) v =
    conn-IsCounted h v (set_phase (unlisted e)) i _ (λ d. refl)
Step-IsCounted {h} (flushes i d e there phase) v =
    let g : DeviceConn → DeviceConn = λ d. record d { pending = []; phase = flushed e } in
    offer_all-IsCounted (record h { conns = update_at g i h.conns }) (broken e) d.pending
      (conn-IsCounted h v g i h.devices (λ d. refl))

Reach-IsCounted : {h g : Hub} → Reach h g → IsCounted h → IsCounted g
Reach-IsCounted here v = v
Reach-IsCounted (next r st) v = Step-IsCounted st (Reach-IsCounted r v)

new_hub-IsCounted : (n : ℕ) → IsCounted (new_hub n)
unfolding new_hub
new_hub-IsCounted n = record { counted = λ i d at. cc at; bounded = λ i d at. cc at; placed = tt }

-- In every state that a new hub comes to, whatever the order of the calls, the frames and the closing
-- of connections, each connection counts exactly the calls that hold a place of it, and these are at
-- most as many as the limit allows.
pub in_flight-le-max_in_flight : (n : ℕ) (h : Hub) → Reach (new_hub n) h → IsCounted h
in_flight-le-max_in_flight n h r = Reach-IsCounted r (new_hub-IsCounted n)
