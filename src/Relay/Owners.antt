-- ===== src/Relay/Owners.antt =====
-- Who may call a device through internal/relay/hub.go.
use open_remote_commander.Prelude.{
  ℕ, ◌≡◌, refl, ap, subst, String, false, List, [], ◌∷◌, ◌++◌, none, some, Result, ok, err,
  ok-injective, err-ne-ok, length, get_elem?, str_eq, eq_iff, Bool-cases, Option-cases, inl, inr,
}
use open_remote_commander.Relay.{
  Error, offline, DeviceConn, waits, Call, Hub, conn_of, is_online, enter,
}
use open_remote_commander.Relay.Steps.{Runs}

-- A caller to whom the device is not online is told that it is offline, and nothing changes: so the
-- device of another subject, which may be online, is not told apart from a device that there is not.
pub enter_offline :
    (owner device_id : String) (h : Hub)
    → is_online owner device_id h ≡ false
    → enter owner device_id h ≡ (err offline, h)
unfolding is_online enter
enter_offline owner id h = elim (Option-cases (conn_of id h)) [
  | inl missing ↦ rw (missing, enter) λ _. refl
  | inr (p, found) ↦ rw (found, is_online, enter) λ foreign. rw foreign refl
]

get-last : {A : Type 0} (xs : List A) (x : A) → get_elem? (xs ++ x ∷ []) (length xs) ≡ some x
get-last [] x = refl
get-last (y ∷ xs) x = get-last xs x

-- What a call is that was let in.
pub record IsOwn (owner : String) (device_id : String) (g : Hub) (k : ℕ) : Type 0 where
  pub call : Call
  pub device : DeviceConn
  pub runs : Runs g k call
  pub there : conn_of device_id g ≡ some (call.conn, device)
  pub waiting : call.stage ≡ waits
  pub owned : device.owner ≡ owner

-- A call that is let in waits for a place of the connection of that device, which belongs to the
-- caller.
pub enter-IsOwn :
    (owner device_id : String) (h g : Hub) (k : ℕ)
    → enter owner device_id h ≡ (ok k, g)
    → IsOwn owner device_id g k
unfolding enter conn_of
enter-IsOwn owner id h g k = elim (Option-cases (conn_of id h)) [
  | inl missing ↦
      rw (missing, enter) λ e. absurd (err-ne-ok (ap (λ (r : Result Error ℕ × Hub). r.0) e))
  | inr (p, found) ↦ elim (Bool-cases (str_eq p.1.owner owner)) [
    | inr foreign ↦
        rw (found, foreign, enter)
          λ e. absurd (err-ne-ok (ap (λ (r : Result Error ℕ × Hub). r.0) e))
    | inl own ↦
        rw (found, own, enter)
          λ e.
            let c : Call = record {
              conn = p.0;
              id = "";
              chan = none;
              stage = waits;
              result = none;
            } in
            let at : length h.calls ≡ k = ok-injective (ap (λ (r : Result Error ℕ × Hub). r.0) e) in
            let after : record h { calls = h.calls ++ c ∷ [] } ≡ g =
              ap (λ (r : Result Error ℕ × Hub). r.1) e in
            subst (λ n. IsOwn owner id g n) at
              (subst (λ x. IsOwn owner id x (length h.calls)) after
                (record {
                  call = c;
                  device = p.1;
                  runs = get-last h.calls c;
                  there = found;
                  waiting = refl;
                  owned = (eq_iff p.1.owner owner).0 own;
                }))
  ]
]
