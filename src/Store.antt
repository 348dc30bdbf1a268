-- ===== src/Store.antt =====
-- internal/store: devices, pairings and audit events (store.go). A time is a number of nanoseconds
-- since Go's zero time, so 0 is the zero time; a nil pointer to a time is none. HashSecret, a
-- SHA-256 digest in hexadecimal, is an argument `hash` of the operations that call it.
pub mod Memory
mod Tests
use open_remote_commander.Prelude.{ℕ, String, Bool, Option}

pub data Error : Type 0 where
  not_found unauthorized pairing_pending pairing_expired pairing_used : Error
  failed : String → Error

pub record Device : Type 0 where
  pub id : String
  pub owner_subject : String
  pub name : String
  pub created_at : ℕ
  pub last_seen_at : Option ℕ
  pub revoked_at : Option ℕ
  pub online : Bool

pub record AuditEvent : Type 0 where
  pub owner_subject : String
  pub device_id : String
  pub tool_name : String
  pub status : String
  pub duration : ℕ
  pub error_code : String

pub record Pairing : Type 0 where
  pub device_code_hash : String
  pub user_code_hash : String
  pub device_name : String
  pub expires_at : ℕ
  pub owner_subject : String
  pub approved_at : Option ℕ
  pub consumed_at : Option ℕ
