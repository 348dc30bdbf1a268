-- ===== src/Store/Tests.antt =====
-- A pairing from start to end, and a revocation, in the in-memory store.
use open_remote_commander.Prelude.{
  ℕ, ◌≡◌, ◌≢◌, ◌↔◌, refl, String, false, List, [], ◌∷◌, none, some, ok, err, lookup, insert,
}
use open_remote_commander.Store.{not_found, unauthorized, Device, Pairing, AuditEvent}
use open_remote_commander.Store.Memory.{
  Memory, MemoryDevice, new_memory, create_pairing, approve_pairing, consume_pairing, get_device,
  authenticate_device, revoke_device, step, run, Call, creates_pairing, approves, consumes, touches,
  pairing_at, list_devices,
}
use open_remote_commander.Store.Memory.Tables.{WellFormed, step-WellFormed}
use open_remote_commander.Store.Memory.Pairings.{
  Consumes, consume_pairing-Consumes, consume_pairing_once,
}
use open_remote_commander.Store.Memory.Devices.{revoke_device_final}
use open_remote_commander.Store.Memory.Listing.{ByAge, In, list_devices_lem}

-- The tests need no real digest.
abbrev plain : String → String
plain s = s

abbrev asked : Pairing
asked = record {
  device_code_hash = "dc";
  user_code_hash = "uc";
  device_name = "laptop";
  expires_at = 600;
  owner_subject = "";
  approved_at = none;
  consumed_at = none;
}

abbrev granted : Pairing
granted = record asked { owner_subject = "alice"; approved_at = some 20 }

abbrev pending : Memory
pending = record new_memory { pairings = ("dc", asked) ∷ []; user_code = ("uc", "dc") ∷ [] }

abbrev allowed : Memory
allowed = record pending { pairings = ("dc", granted) ∷ [] }

abbrev template : Device
template = record {
  id = "dev1";
  owner_subject = "";
  name = "";
  created_at = 0;
  last_seen_at = none;
  revoked_at = none;
  online = false;
}

abbrev laptop : Device
laptop = record template { owner_subject = "alice"; name = "laptop"; created_at = 30 }

abbrev laptop_entry : MemoryDevice
laptop_entry = record { device = laptop; token_hash = "tok" }

abbrev paired : Memory
paired = record allowed {
  devices = ("dev1", laptop_entry) ∷ [];
  pairings = ("dc", record granted { consumed_at = some 30 }) ∷ [];
}

abbrev revoked_entry : MemoryDevice
revoked_entry = record laptop_entry { device = record laptop { revoked_at = some 40 } }

abbrev revoked : Memory
revoked = record paired { devices = ("dev1", revoked_entry) ∷ [] }

create_asked : create_pairing asked new_memory ≡ (ok tt, pending)
unfolding create_pairing lookup insert
create_asked = refl

approve_asked : approve_pairing 20 "uc" "alice" pending ≡ (ok tt, allowed)
unfolding approve_pairing pairing_at lookup insert
approve_asked = refl

consume_granted : consume_pairing plain 30 "dc" template "tok" allowed ≡ (ok laptop, paired)
unfolding consume_pairing lookup insert
consume_granted = refl

revoke_laptop : revoke_device 40 "alice" "dev1" paired ≡ (ok tt, revoked)
unfolding revoke_device lookup insert
revoke_laptop = refl

step-WellFormed_example : WellFormed (step plain new_memory (10, creates_pairing asked))
unfolding lookup
step-WellFormed_example =
    step-WellFormed plain new_memory 10 (creates_pairing asked) (refl, refl)
      (record { keyed = λ k p e. cc; linked = λ u k e. absurd (cc); ordered = λ k p e. cc })

consume_pairing-Consumes_example : Consumes plain 30 "dc" "tok" allowed paired laptop
consume_pairing-Consumes_example =
    consume_pairing-Consumes plain 30 "dc" template laptop "tok" allowed paired refl consume_granted

consume_pairing_once_example :
    (consume_pairing plain 50 "dc" template "tok2" (run plain paired ((45, touches "dev1") ∷ []))).0
    ≢ ok laptop
consume_pairing_once_example =
    consume_pairing_once plain 30 50 "dc" template laptop template laptop "tok" "tok2" allowed
      paired ((45, touches "dev1") ∷ []) refl consume_granted

revoke_device_final_example :
    (authenticate_device plain "dev1" "tok" (run plain revoked ((45, touches "dev1") ∷ []))
      ≡ err unauthorized)
    × (get_device "alice" "dev1" (run plain revoked ((45, touches "dev1") ∷ [])) ≡ err not_found)
revoke_device_final_example =
    revoke_device_final plain 40 "alice" "dev1" "alice" "tok" paired revoked
      ((45, touches "dev1") ∷ []) revoke_laptop

abbrev history : List (ℕ × Call)
history =
    (10, creates_pairing asked)
    ∷ (20, approves "uc" "alice")
    ∷ (30, consumes "dc" template "tok")
    ∷ []

list_devices_lem_example :
    ByAge (list_devices "alice" (run plain new_memory history))
    × ((d : Device)
        → In d (list_devices "alice" (run plain new_memory history))
          ↔ (get_device "alice" d.id (run plain new_memory history) ≡ ok d))
list_devices_lem_example = list_devices_lem plain "alice" history

abbrev event : AuditEvent
event = record {
  owner_subject = "alice";
  device_id = "dev1";
  tool_name = "ping";
  status = "ok";
  duration = 3;
  error_code = "";
}
