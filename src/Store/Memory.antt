-- ===== src/Store/Memory.antt =====
-- The in-memory store of internal/store/memory.go. Each method holds the store's lock from start to
-- end, so it is one function of the state; `now` is what time.Now() returns in it.
pub mod Cases
pub mod Tables
pub mod Pairings
pub mod Completed
pub mod Devices
pub mod Listing
pub mod Audit
use open_remote_commander.Prelude.{
  ℕ, zero, suc, ◌+◌, ◌-◌, String, Bool, true, false, ◌&&◌, ◌||◌, not, List, [], ◌∷◌, ◌++◌, Option,
  none, some, Map, Result, ok, err, length, take, drop, ltb, leb, ◌==◌, str_eq, is_some,
  if◌then◌else◌, lookup, insert,
}
use open_remote_commander.Store.{
  Error, not_found, unauthorized, pairing_pending, pairing_expired, pairing_used, failed, Device,
  AuditEvent, Pairing,
}

pub record MemoryDevice : Type 0 where
  pub device : Device
  pub token_hash : String

pub record Memory : Type 0 where
  pub devices : Map MemoryDevice
  pub pairings : Map Pairing
  pub user_code : Map String
  pub audit : List AuditEvent

abbrev pub new_memory : Memory
new_memory = record { devices = []; pairings = []; user_code = []; audit = [] }

-- if d.CreatedAt.IsZero() { d.CreatedAt = now }
abbrev pub dated : ℕ → Device → Device
dated now d = if d.created_at == 0 then record d { created_at = now } else d

unfoldable pub create_device :
    (String → String) → ℕ → Device → String → Memory → Result Error (Unit {0}) × Memory
create_device hash now d token m = elim (lookup d.id m.devices) [
  | some old ↦ (err (failed "device already exists"), m)
  | none ↦ (
    ok tt,
    record m {
      devices = insert d.id (record { device = dated now d; token_hash = hash token }) m.devices;
    },
  )
]

-- The test that `GetDevice`, `ListDevices` and `RevokeDevice` share.
abbrev pub is_owned : String → MemoryDevice → Bool
is_owned owner d = str_eq d.device.owner_subject owner && not (is_some d.device.revoked_at)

unfoldable pub get_device : String → String → Memory → Result Error Device
get_device owner id m = elim (lookup id m.devices) [
  | none ↦ err not_found
  | some d ↦ if is_owned owner d then ok d.device else err not_found
]

owned_devices : String → Map MemoryDevice → List Device
owned_devices owner [] = []
owned_devices owner ((id, d) ∷ rest) =
    let others = owned_devices owner rest in if is_owned owner d then d.device ∷ others else others

-- sort.Slice by CreatedAt.Before; the order of devices of equal age is not specified.
insert_by_age : Device → List Device → List Device
insert_by_age d [] = d ∷ []
insert_by_age d (e ∷ es) =
    if ltb e.created_at d.created_at then e ∷ insert_by_age d es else d ∷ e ∷ es

sort_by_age : List Device → List Device
unfolding insert_by_age
sort_by_age [] = []
sort_by_age (d ∷ ds) = insert_by_age d (sort_by_age ds)

unfoldable pub list_devices : String → Memory → List Device
unfolding owned_devices sort_by_age
list_devices owner m = sort_by_age (owned_devices owner m.devices)

unfoldable pub authenticate_device :
    (String → String) → String → String → Memory → Result Error Device
authenticate_device hash id token m = elim (lookup id m.devices) [
  | none ↦ err unauthorized
  | some d ↦
      if is_some d.device.revoked_at || not (str_eq d.token_hash (hash token))
      then err unauthorized
      else ok d.device
]

abbrev pub set_device : String → MemoryDevice → Memory → Memory
set_device id d m = record m { devices = insert id d m.devices }

unfoldable pub touch_device : ℕ → String → Memory → Result Error (Unit {0}) × Memory
touch_device now id m = elim (lookup id m.devices) [
  | none ↦ (err not_found, m)
  | some d ↦
      (ok tt, set_device id (record d { device = record d.device { last_seen_at = some now } }) m)
]

unfoldable pub revoke_device : ℕ → String → String → Memory → Result Error (Unit {0}) × Memory
revoke_device now owner id m = elim (lookup id m.devices) [
  | none ↦ (err not_found, m)
  | some d ↦
      if is_owned owner d
      then (
        ok tt,
        set_device id (record d { device = record d.device { revoked_at = some now } }) m,
      )
      else (err not_found, m)
]

abbrev pub audit_cap : ℕ
audit_cap = 10000

abbrev pub audit_kept : ℕ
audit_kept = 5000

-- copy(m.audit, m.audit[len(m.audit)-5000:]); m.audit = m.audit[:5000]
halve_audit : List AuditEvent → List AuditEvent
halve_audit es =
    let n = length es - audit_kept in take audit_kept (drop n es ++ drop (length es - n) es)

unfoldable pub write_audit : AuditEvent → Memory → Memory
unfolding halve_audit
write_audit e m =
    let kept = if leb audit_cap (length m.audit) then halve_audit m.audit else m.audit in
    record m { audit = kept ++ e ∷ [] }

unfoldable pub create_pairing : Pairing → Memory → Result Error (Unit {0}) × Memory
create_pairing p m = elim (lookup p.device_code_hash m.pairings) [
  | some old ↦ (err (failed "pairing exists"), m)
  | none ↦ elim (lookup p.user_code_hash m.user_code) [
    | some old ↦ (err (failed "user code collision"), m)
    | none ↦ (
      ok tt,
      record m {
        pairings = insert p.device_code_hash p m.pairings;
        user_code = insert p.user_code_hash p.device_code_hash m.user_code;
      },
    )
  ]
]

-- m.pairings[k], the zero value for a missing key.
abbrev zero_pairing : Pairing
zero_pairing = record {
  device_code_hash = "";
  user_code_hash = "";
  device_name = "";
  expires_at = 0;
  owner_subject = "";
  approved_at = none;
  consumed_at = none;
}

unfoldable pub pairing_at : String → Map Pairing → Pairing
pairing_at k ps = elim (lookup k ps) [ none ↦ zero_pairing | some p ↦ p ]

abbrev pub approved : ℕ → String → Pairing → Pairing
approved now owner p = record p { owner_subject = owner; approved_at = some now }

unfoldable pub approve_pairing : ℕ → String → String → Memory → Result Error (Unit {0}) × Memory
approve_pairing now user_code_hash owner m = elim (lookup user_code_hash m.user_code) [
  | none ↦ (err not_found, m)
  | some k ↦
      let p = pairing_at k m.pairings in
      if ltb p.expires_at now
      then (err pairing_expired, m)
      else if is_some p.consumed_at
      then (err pairing_used, m)
      else (ok tt, record m { pairings = insert k (approved now owner p) m.pairings })
]

-- The device that a pairing makes of the template that the caller gives.
abbrev pub issued : ℕ → Pairing → Device → Device
issued now p d = dated now (record d { owner_subject = p.owner_subject; name = p.device_name })

-- The checks of `ConsumePairing` on the pairing, in the code's order.
abbrev pub refusal : ℕ → Pairing → Option Error
refusal now p =
    if ltb p.expires_at now
    then some pairing_expired
    else if is_some p.consumed_at
    then some pairing_used
    else if not (is_some p.approved_at) || str_eq p.owner_subject ""
    then some pairing_pending
    else none

unfoldable pub consume_pairing :
    (String → String) → ℕ → String → Device → String → Memory → Result Error Device × Memory
consume_pairing hash now k d token m = elim (lookup k m.pairings) [
  | none ↦ (err not_found, m)
  | some p ↦ elim (refusal now p) [
    | some e ↦ (err e, m)
    | none ↦ elim (lookup d.id m.devices) [
      | some old ↦ (err (failed "device id collision"), m)
      | none ↦ (
        ok (issued now p d),
        record m {
          devices =
              insert d.id (record { device = issued now p d; token_hash = hash token }) m.devices;
          pairings = insert k (record p { consumed_at = some now }) m.pairings;
        },
      )
    ]
  ]
]

-- The calls that change the store.
pub data Call : Type 0 where
  creates_device : Device → String → Call
  touches : String → Call
  revokes : String → String → Call
  audits : AuditEvent → Call
  creates_pairing : Pairing → Call
  approves : String → String → Call
  consumes : String → Device → String → Call

module _ (hash : String → String) where
  -- One call at its time.
  unfoldable pub step : Memory → ℕ × Call → Memory
  step m (now, creates_device d token) = (create_device hash now d token m).1
  step m (now, touches id) = (touch_device now id m).1
  step m (now, revokes owner id) = (revoke_device now owner id m).1
  step m (now, audits e) = write_audit e m
  step m (now, creates_pairing p) = (create_pairing p m).1
  step m (now, approves code owner) = (approve_pairing now code owner m).1
  step m (now, consumes k d token) = (consume_pairing hash now k d token m).1

  unfoldable pub run : Memory → List (ℕ × Call) → Memory
  unfolding step
  run m [] = m
  run m (c ∷ cs) = run (step m c) cs
