-- ===== src/Store/Memory/Completed.antt =====
-- A pairing in internal/store/memory.go that is created, approved in time and consumed in time.
use open_remote_commander.Prelude.{
  ℕ, ◌≤◌, ◌≡◌, ◌≢◌, refl, String, false, none, some, ok, lookup, insert, arith, eq_iff, ltb,
}
use open_remote_commander.Store.{Device, Pairing}
use open_remote_commander.Store.Memory.{
  Memory, create_pairing, approve_pairing, consume_pairing, approved, issued, refusal,
}
use open_remote_commander.Store.Memory.Tables.{pairing_at-found}

module _ (p : Pairing) (m : Memory) where
  abbrev pub with_pairing : Memory
  with_pairing = record m {
    pairings = insert p.device_code_hash p m.pairings;
    user_code = insert p.user_code_hash p.device_code_hash m.user_code;
  }

  pub create_pairing_free :
      lookup p.device_code_hash m.pairings ≡ none
      → lookup p.user_code_hash m.user_code ≡ none
      → create_pairing p m ≡ (ok tt, with_pairing)
  unfolding create_pairing
  create_pairing_free free free' = rw (free, create_pairing, free') refl

abbrev pub with_approval : ℕ → String → String → Pairing → Memory → Memory
with_approval t subject k p m = record m { pairings = insert k (approved t subject p) m.pairings }

pub approve_pairing_in_time :
    (u k : String) (p : Pairing) (m : Memory) (t : ℕ) (subject : String)
    → lookup u m.user_code ≡ some k
    → lookup k m.pairings ≡ some p
    → t ≤ p.expires_at
    → p.consumed_at ≡ none
    → approve_pairing t u subject m ≡ (ok tt, with_approval t subject k p m)
unfolding approve_pairing
approve_pairing_in_time u k p m t subject linked found in_time unused =
    let late : ltb p.expires_at t ≡ false = ground (arith, in_time) in
    rw (linked, approve_pairing, pairing_at-found k p m found, late, unused) refl

pub consume_pairing_in_time :
    (hash : String → String) (k token : String) (p : Pairing) (d : Device) (m : Memory) (t : ℕ)
    → lookup k m.pairings ≡ some p
    → refusal t p ≡ none
    → lookup d.id m.devices ≡ none
    → (consume_pairing hash t k d token m).0 ≡ ok (issued t p d)
unfolding consume_pairing
consume_pairing_in_time hash k token p d m t found open_ free =
    rw (found, consume_pairing, open_, free) refl

pub refusal-approved :
    (p : Pairing) (t t' : ℕ) (subject : String)
    → t' ≤ p.expires_at
    → p.consumed_at ≡ none
    → subject ≢ ""
    → refusal t' (approved t subject p) ≡ none
refusal-approved p t t' subject in_time unused named =
    ground (arith, in_time, unused, named, eq_iff subject "")
