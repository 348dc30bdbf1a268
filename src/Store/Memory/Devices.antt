-- ===== src/Store/Memory/Devices.antt =====
-- What stays of a device through the calls of the store, and what its owner can see of it.
use open_remote_commander.Prelude.{
  ℕ, ◌≡◌, refl, sym, ap, subst, ◌∙◌, inl, inr, String, true, List, [], ◌∷◌, none, some, Map, Result,
  ok, err, str_eq, is_some, arith, lookup, insert, lookup-insert, lookup-insert_self, err-ne-ok,
  eq_iff, Bool-cases,
}
use open_remote_commander.Store.{Error, not_found, unauthorized}
use open_remote_commander.Store.Memory.Cases.{
  create_device_cases, touch_device_cases, revoke_device_cases, create_pairing_cases,
  approve_pairing_cases, consume_pairing_cases,
}
use open_remote_commander.Store.Memory.{
  Memory, MemoryDevice, get_device, authenticate_device, revoke_device, write_audit, is_owned, step,
  run, Call, creates_device, touches, revokes, audits, creates_pairing, approves, consumes,
}

-- The same device later on: its identity is unchanged, and a revocation stands.
pub record Keeps (d e : MemoryDevice) : Type 0 where
  pub same_id : e.device.id ≡ d.device.id
  pub same_owner : e.device.owner_subject ≡ d.device.owner_subject
  pub same_name : e.device.name ≡ d.device.name
  pub same_creation : e.device.created_at ≡ d.device.created_at
  pub same_hash : e.token_hash ≡ d.token_hash
  pub stays_revoked : is_some d.device.revoked_at ≡ true → e.device.revoked_at ≡ d.device.revoked_at

Keeps-refl : (d : MemoryDevice) → Keeps d d
Keeps-refl d = record {
  same_id = refl;
  same_owner = refl;
  same_name = refl;
  same_creation = refl;
  same_hash = refl;
  stays_revoked = λ _. refl;
}

Keeps-trans : (d e f : MemoryDevice) → Keeps d e → Keeps e f → Keeps d f
Keeps-trans d e f u v = record {
  same_id = v.same_id ∙ u.same_id;
  same_owner = v.same_owner ∙ u.same_owner;
  same_name = v.same_name ∙ u.same_name;
  same_creation = v.same_creation ∙ u.same_creation;
  same_hash = v.same_hash ∙ u.same_hash;
  stays_revoked = λ r. v.stays_revoked (ap is_some (u.stays_revoked r) ∙ r) ∙ u.stays_revoked r;
}

-- The device under `id`, `d` at first, is still there and the same.
abbrev pub Stays : String → MemoryDevice → Map MemoryDevice → Type 0
Stays id d ds = (e : MemoryDevice) × (lookup id ds ≡ some e) × Keeps d e

module _ (id : String) (d : MemoryDevice) (ds : Map MemoryDevice)
    (there : lookup id ds ≡ some d) where
  same-Stays : Stays id d ds
  same-Stays = (d, there, Keeps-refl d)

  -- Adding a device under a free identifier.
  add-Stays : (k : String) (new : MemoryDevice) → lookup k ds ≡ none → Stays id d (insert k new ds)
  add-Stays k new free =
      (d, ground (arith, lookup-insert k id new ds, eq_iff k id, there, free), Keeps-refl d)

  -- Writing a device that keeps the one it replaces.
  put-Stays :
      (k : String) (old new : MemoryDevice)
      → lookup k ds ≡ some old
      → Keeps old new
      → Stays id d (insert k new ds)
  put-Stays k old new at keeps =
      let now_at = lookup-insert k id new ds in
      elim (Bool-cases (str_eq k id)) [
        | inl same ↦
            let e : old ≡ d = ground (arith, eq_iff k id, at, there) in
            (new, ground (arith, now_at), subst (λ x. Keeps x new) e keeps)
        | inr other ↦ (d, ground (arith, now_at), Keeps-refl d)
      ]

seen-Keeps :
    (now : ℕ) (d : MemoryDevice)
    → Keeps d (record d { device = record d.device { last_seen_at = some now } })
seen-Keeps now d = record {
  same_id = refl;
  same_owner = refl;
  same_name = refl;
  same_creation = refl;
  same_hash = refl;
  stays_revoked = λ _. refl;
}

revoked-Keeps :
    (now : ℕ) (owner : String) (d : MemoryDevice)
    → is_owned owner d ≡ true
    → Keeps d (record d { device = record d.device { revoked_at = some now } })
revoked-Keeps now owner d own = record {
  same_id = refl;
  same_owner = refl;
  same_name = refl;
  same_creation = refl;
  same_hash = refl;
  stays_revoked = λ r. ground (arith, own, r);
}

module _ (hash : String → String) (id : String) (d : MemoryDevice) where
  step-Stays :
      (m : Memory) (now : ℕ) (c : Call)
      → lookup id m.devices ≡ some d
      → Stays id d (step hash m (now, c)).devices
  unfolding step write_audit
  step-Stays m now (creates_device f token) there =
      create_device_cases (λ r. Stays id d r.1.devices) m (λ _. same-Stays id d m.devices there)
        hash now f token (add-Stays id d m.devices there f.id _)
  step-Stays m now (touches k) there =
      touch_device_cases (λ r. Stays id d r.1.devices) m (λ _. same-Stays id d m.devices there) now
        k (λ old at. put-Stays id d m.devices there k old _ at (seen-Keeps now old))
  step-Stays m now (revokes owner k) there =
      revoke_device_cases (λ r. Stays id d r.1.devices) m (λ _. same-Stays id d m.devices there) now
        owner k
        (λ old at own. put-Stays id d m.devices there k old _ at (revoked-Keeps now owner old own))
  step-Stays m now (audits e) there = same-Stays id d m.devices there
  step-Stays m now (creates_pairing p) there =
      create_pairing_cases (λ r. Stays id d r.1.devices) m (λ _. same-Stays id d m.devices there) p
        (λ _ _. same-Stays id d m.devices there)
  step-Stays m now (approves code owner) there =
      approve_pairing_cases (λ r. Stays id d r.1.devices) m (λ _. same-Stays id d m.devices there)
        now code owner (λ _ _ _ _. same-Stays id d m.devices there)
  step-Stays m now (consumes k f token) there =
      consume_pairing_cases (λ r. Stays id d r.1.devices) m (λ _. same-Stays id d m.devices there)
        hash now k f token (λ p at open_. add-Stays id d m.devices there f.id _)

-- No run of calls removes a device, or changes its identifier, owner, name, age or token hash, or
-- undoes or moves its revocation.
pub run-Stays :
    (hash : String → String) (id : String) (d : MemoryDevice) (m : Memory) (cs : List (ℕ × Call))
    → lookup id m.devices ≡ some d
    → Stays id d (run hash m cs).devices
unfolding run
run-Stays hash id d m [] there = same-Stays id d m.devices there
run-Stays hash id d m ((now, c) ∷ cs) there =
    let (e, at, keeps) = step-Stays hash id d m now c there in
    let (f, at', keeps') = run-Stays hash id e (step hash m (now, c)) cs at in
    (f, at', Keeps-trans d e f keeps keeps')

revoked_lem :
    (now : ℕ) (owner id : String) (m n : Memory)
    → revoke_device now owner id m ≡ (ok tt, n)
    → (d : MemoryDevice) × (lookup id n.devices ≡ some d) × (is_some d.device.revoked_at ≡ true)
revoked_lem now owner id m n =
    revoke_device_cases
      (λ r.
        r ≡ (ok tt, n)
        → (d : MemoryDevice) × (lookup id n.devices ≡ some d)
          × (is_some d.device.revoked_at ≡ true))
      m (λ c h. absurd (err-ne-ok (ap (λ (r : Result Error (Unit {0}) × Memory). r.0) h))) now owner
      id
      λ d at own h. (
        record d { device = record d.device { revoked_at = some now } },
        ap (λ (r : Result Error (Unit {0}) × Memory). lookup id r.1.devices) (sym h)
            ∙ lookup-insert_self id _ m.devices,
        refl,
      )

-- Once a revocation has succeeded, no token is accepted for the device and no subject sees it,
-- whatever calls follow.
pub revoke_device_final :
    (hash : String → String) (now : ℕ) (owner id subject token : String) (m n : Memory)
    (cs : List (ℕ × Call))
    → revoke_device now owner id m ≡ (ok tt, n)
    → (authenticate_device hash id token (run hash n cs) ≡ err unauthorized)
      × (get_device subject id (run hash n cs) ≡ err not_found)
unfolding authenticate_device get_device
revoke_device_final hash now owner id subject token m n cs h =
    let (d, there, gone) = revoked_lem now owner id m n h in
    let (e, at, keeps) = run-Stays hash id d n cs there in
    let out : is_some e.device.revoked_at ≡ true = ap is_some (keeps.stays_revoked gone) ∙ gone in
    (ground (arith, at, out), ground (arith, at, out))
