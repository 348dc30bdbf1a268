-- ===== src/Store/Memory/Cases.antt =====
-- The branches of the methods that change the store, as rules for a property of what they return.
use open_remote_commander.Prelude.{
  ℕ, ◌≤◌, ◌≡◌, inl, inr, String, true, none, some, Result, ok, err, ltb, is_some, arith, lookup,
  insert, Option-cases, Bool-cases,
}
use open_remote_commander.Store.{Error, Device, Pairing}
use open_remote_commander.Store.Memory.{
  Memory, MemoryDevice, create_device, touch_device, revoke_device, is_owned, dated, set_device,
  create_pairing, approve_pairing, approved, refusal, issued, consume_pairing, pairing_at,
}

module _ {ℓ} {A : Type 0} (P : Result Error A × Memory → Type ℓ) where
  abbrev Refuses : Memory → Type ℓ
  Refuses m = (e : Error) → P (err e, m)

module _ {ℓ} (P : Result Error (Unit {0}) × Memory → Type ℓ) (m : Memory)
    (refused : Refuses P m) where
  pub create_device_cases :
      (hash : String → String) (now : ℕ) (d : Device) (token : String)
      → (lookup d.id m.devices ≡ none
          → P (ok tt, set_device d.id (record { device = dated now d; token_hash = hash token }) m))
      → P (create_device hash now d token m)
  unfolding create_device
  create_device_cases hash now d token created = elim (Option-cases (lookup d.id m.devices)) [
    | inl e ↦ rw (e, create_device) (created e)
    | inr (old, e) ↦ rw (e, create_device) (refused _)
  ]

  pub touch_device_cases :
      (now : ℕ) (id : String)
      → ((d : MemoryDevice)
          → lookup id m.devices ≡ some d
          → P (
            ok tt,
            set_device id (record d { device = record d.device { last_seen_at = some now } }) m,
          ))
      → P (touch_device now id m)
  unfolding touch_device
  touch_device_cases now id touched = elim (Option-cases (lookup id m.devices)) [
    | inl e ↦ rw (e, touch_device) (refused _)
    | inr (d, e) ↦ rw (e, touch_device) (touched d e)
  ]

  pub revoke_device_cases :
      (now : ℕ) (owner id : String)
      → ((d : MemoryDevice)
          → lookup id m.devices ≡ some d
          → is_owned owner d ≡ true
          → P (
            ok tt,
            set_device id (record d { device = record d.device { revoked_at = some now } }) m,
          ))
      → P (revoke_device now owner id m)
  unfolding revoke_device
  revoke_device_cases now owner id revoked = elim (Option-cases (lookup id m.devices)) [
    | inl e ↦ rw (e, revoke_device) (refused _)
    | inr (d, e) ↦ elim (Bool-cases (is_owned owner d)) [
      | inl own ↦ rw (e, revoke_device, own) (revoked d e own)
      | inr alien ↦ rw (e, revoke_device, alien) (refused _)
    ]
  ]

  pub create_pairing_cases :
      (p : Pairing)
      → (lookup p.device_code_hash m.pairings ≡ none
          → lookup p.user_code_hash m.user_code ≡ none
          → P (
            ok tt,
            record m {
              pairings = insert p.device_code_hash p m.pairings;
              user_code = insert p.user_code_hash p.device_code_hash m.user_code;
            },
          ))
      → P (create_pairing p m)
  unfolding create_pairing
  create_pairing_cases p created = elim (Option-cases (lookup p.device_code_hash m.pairings)) [
    | inr (old, e) ↦ rw (e, create_pairing) (refused _)
    | inl e ↦ elim (Option-cases (lookup p.user_code_hash m.user_code)) [
      | inr (old, f) ↦ rw (e, create_pairing, f) (refused _)
      | inl f ↦ rw (e, create_pairing, f) (created e f)
    ]
  ]

  pub approve_pairing_cases :
      (now : ℕ) (code owner : String)
      → ((k : String)
          → lookup code m.user_code ≡ some k
          → now ≤ (pairing_at k m.pairings).expires_at
          → (pairing_at k m.pairings).consumed_at ≡ none
          → P (
            ok tt,
            record m {
              pairings = insert k (approved now owner (pairing_at k m.pairings)) m.pairings;
            },
          ))
      → P (approve_pairing now code owner m)
  unfolding approve_pairing
  approve_pairing_cases now code owner done = elim (Option-cases (lookup code m.user_code)) [
    | inl e ↦ rw (e, approve_pairing) (refused _)
    | inr (k, e) ↦ elim (Bool-cases (ltb (pairing_at k m.pairings).expires_at now)) [
      | inl late ↦ rw (e, approve_pairing, late) (refused _)
      | inr in_time ↦ elim (Bool-cases (is_some (pairing_at k m.pairings).consumed_at)) [
        | inl used ↦ rw (e, approve_pairing, in_time, used) (refused _)
        | inr unused ↦
            rw (e, approve_pairing, in_time, unused) (done k e (ground arith) (ground arith))
      ]
    ]
  ]

module _ {ℓ} (P : Result Error Device × Memory → Type ℓ) (m : Memory) (refused : Refuses P m) where
  pub consume_pairing_cases :
      (hash : String → String) (now : ℕ) (k : String) (d : Device) (token : String)
      → ((p : Pairing)
          → lookup k m.pairings ≡ some p
          → refusal now p ≡ none
          → lookup d.id m.devices ≡ none
          → P (
            ok (issued now p d),
            record m {
              devices =
                  insert d.id
                    (record { device = issued now p d; token_hash = hash token })
                    m.devices;
              pairings = insert k (record p { consumed_at = some now }) m.pairings;
            },
          ))
      → P (consume_pairing hash now k d token m)
  unfolding consume_pairing
  consume_pairing_cases hash now k d token done = elim (Option-cases (lookup k m.pairings)) [
    | inl e ↦ rw (e, consume_pairing) (refused _)
    | inr (p, e) ↦ elim (Option-cases (refusal now p)) [
      | inr (c, f) ↦ rw (e, consume_pairing, f) (refused c)
      | inl f ↦ elim (Option-cases (lookup d.id m.devices)) [
        | inr (old, g) ↦ rw (e, consume_pairing, f, g) (refused _)
        | inl g ↦ rw (e, consume_pairing, f, g) (done p e f g)
      ]
    ]
  ]
