-- ===== src/Store/Memory/Pairings.antt =====
-- A pairing in internal/store/memory.go is consumed once, for the user who approved it.
use open_remote_commander.Prelude.{
  ℕ, ◌≤◌, ◌≡◌, refl, ap, ◌∙◌, ◌≢◌, inl, inr, String, true, List, [], ◌∷◌, none, some, Result, ok,
  str_eq, is_some, arith, lookup, insert, lookup-insert, lookup-insert_self, str_eq_self, subst₂,
  err-ne-ok, ok-injective, eq_iff, Bool-cases,
}
use open_remote_commander.Store.{Error, Device, Pairing}
use open_remote_commander.Store.Memory.Cases.{
  create_device_cases, touch_device_cases, revoke_device_cases, create_pairing_cases,
  approve_pairing_cases, consume_pairing_cases,
}
use open_remote_commander.Store.Memory.{
  Memory, authenticate_device, write_audit, approved, refusal, issued, consume_pairing, pairing_at,
  step, run, Call, creates_device, touches, revokes, audits, creates_pairing, approves, consumes,
}
use open_remote_commander.Store.Memory.Tables.{pairing_at-found}

-- The pairing under `k` has been consumed.
abbrev pub IsUsed : String → Memory → Type 0
IsUsed k m = (p : Pairing) × (lookup k m.pairings ≡ some p) × (is_some p.consumed_at ≡ true)

put-IsUsed :
    (m : Memory) (k j : String) (old new : Pairing)
    → lookup j m.pairings ≡ some old
    → (is_some old.consumed_at ≡ true → is_some new.consumed_at ≡ true)
    → IsUsed k m
    → IsUsed k (record m { pairings = insert j new m.pairings })
put-IsUsed m k j old new at keeps (p, there, used) =
    let now_at = lookup-insert j k new m.pairings in
    elim (Bool-cases (str_eq j k)) [
      | inl same ↦
          (new, ground (arith, now_at), keeps (ground (arith, eq_iff j k, at, there, used)))
      | inr other ↦ (p, ground (arith, now_at), used)
    ]

step-IsUsed :
    (hash : String → String) (k : String) (m : Memory) (now : ℕ) (c : Call)
    → IsUsed k m
    → IsUsed k (step hash m (now, c))
unfolding step write_audit
step-IsUsed hash k m now (creates_device d token) u =
    create_device_cases (λ r. IsUsed k r.1) m (λ _. u) hash now d token (λ _. u)
step-IsUsed hash k m now (touches id) u =
    touch_device_cases (λ r. IsUsed k r.1) m (λ _. u) now id (λ d _. u)
step-IsUsed hash k m now (revokes owner id) u =
    revoke_device_cases (λ r. IsUsed k r.1) m (λ _. u) now owner id (λ d _ _. u)
step-IsUsed hash k m now (audits e) u = u
step-IsUsed hash k m now (creates_pairing p) u =
    create_pairing_cases (λ r. IsUsed k r.1) m (λ _. u) p (λ e _. kept e)
  where
    kept :
        lookup p.device_code_hash m.pairings ≡ none
        → IsUsed k (record m {
          pairings = insert p.device_code_hash p m.pairings;
          user_code = insert p.user_code_hash p.device_code_hash m.user_code;
        })
    kept e =
        let (q, there, used) = u in
        (
          q,
          ground (
            arith,
            lookup-insert p.device_code_hash k p m.pairings,
            eq_iff p.device_code_hash k,
            there,
            e,
          ),
          used,
        )
step-IsUsed hash k m now (approves code owner) u =
    approve_pairing_cases (λ r. IsUsed k r.1) m (λ _. u) now code owner
      (λ j _ _ unused.
        let (q, there, used) = u in
        let apart : j ≡ k → ⊥ = λ e.
          let read : pairing_at j m.pairings ≡ q =
            pairing_at-found j q m (ap (λ i. lookup i m.pairings) e ∙ there) in
          ground (arith, read, unused, used) in
        (
          q,
          ground (
            arith,
            lookup-insert j k (approved now owner (pairing_at j m.pairings)) m.pairings,
            eq_iff j k,
            there,
            apart,
          ),
          used,
        ))
step-IsUsed hash k m now (consumes j d token) u =
    consume_pairing_cases (λ r. IsUsed k r.1) m (λ _. u) hash now j d token
      (λ p e _ _. put-IsUsed m k j p _ e (λ _. refl) u)

run-IsUsed :
    (hash : String → String) (k : String) (m : Memory) (cs : List (ℕ × Call))
    → IsUsed k m
    → IsUsed k (run hash m cs)
unfolding run
run-IsUsed hash k m [] u = u
run-IsUsed hash k m ((now, c) ∷ cs) u =
    run-IsUsed hash k (step hash m (now, c)) cs (step-IsUsed hash k m now c u)

-- A consumed pairing gives no device.
used_refuses :
    (hash : String → String) (now : ℕ) (k : String) (d e : Device) (token : String) (m : Memory)
    → IsUsed k m
    → (consume_pairing hash now k d token m).0 ≢ ok e
unfolding consume_pairing
used_refuses hash now k d e token m (p, there, used) h = ground (arith, there, used)

-- What a successful consumption at `now` goes by and leaves behind.
pub record Consumes (hash : String → String) (now : ℕ) (k token : String) (m n : Memory)
    (e : Device) : Type 0 where
  pub pairing : Pairing
  pub found : lookup k m.pairings ≡ some pairing
  pub in_time : now ≤ pairing.expires_at
  pub unused : pairing.consumed_at ≡ none
  pub was_approved : is_some pairing.approved_at ≡ true
  pub owned : pairing.owner_subject ≢ ""
  pub owner : e.owner_subject ≡ pairing.owner_subject
  pub name : e.name ≡ pairing.device_name
  pub accepted : authenticate_device hash e.id token n ≡ ok e
  pub marked : lookup k n.pairings ≡ some (record pairing { consumed_at = some now })

consumed-Consumes :
    (hash : String → String) (now : ℕ) (k : String) (d : Device) (token : String) (m : Memory)
    (p : Pairing)
    → d.revoked_at ≡ none
    → lookup k m.pairings ≡ some p
    → refusal now p ≡ none
    → Consumes hash now k token m
        (record m {
          devices =
              insert d.id (record { device = issued now p d; token_hash = hash token }) m.devices;
          pairings = insert k (record p { consumed_at = some now }) m.pairings;
        })
        (issued now p d)
unfolding authenticate_device
consumed-Consumes hash now k d token m p live at open_ = record {
  pairing = p;
  found = at;
  in_time = ground (arith, open_);
  unused = ground (arith, open_);
  was_approved = ground (arith, open_);
  owned = λ e. ground (arith, open_, e, eq_iff p.owner_subject "");
  owner = ground arith;
  name = ground arith;
  accepted = ground (
    arith,
    lookup-insert_self d.id (record { device = issued now p d; token_hash = hash token }) m.devices,
    str_eq_self (hash token),
  );
  marked = lookup-insert_self k (record p { consumed_at = some now }) m.pairings;
}

-- A consumption that succeeds finds, under that code, a pairing that is approved by a named user,
-- within its time and not yet consumed. The device that it returns belongs to that user, carries the
-- pairing's name and is accepted with the issued token by the store that the call leaves, where the
-- pairing is marked consumed.
pub consume_pairing-Consumes :
    (hash : String → String) (now : ℕ) (k : String) (d e : Device) (token : String) (m n : Memory)
    → d.revoked_at ≡ none
    → consume_pairing hash now k d token m ≡ (ok e, n)
    → Consumes hash now k token m n e
consume_pairing-Consumes hash now k d e token m n live =
    consume_pairing_cases (λ r. r ≡ (ok e, n) → Consumes hash now k token m n e) m
      (λ c h. absurd (err-ne-ok (ap (λ (r : Result Error Device × Memory). r.0) h))) hash now k d
      token
      λ p at open_ free h.
        subst₂ (λ (f : Memory) g. Consumes hash now k token m f g)
          (ap (λ (r : Result Error Device × Memory). r.1) h)
          (ok-injective (ap (λ (r : Result Error Device × Memory). r.0) h))
          (consumed-Consumes hash now k d token m p live at open_)

-- A pairing gives at most one device: once a consumption of `k` has succeeded, no later consumption
-- of `k` does, whatever calls come between them, whoever makes them and whenever.
pub consume_pairing_once :
    (hash : String → String) (now later : ℕ) (k : String) (d e d' e' : Device)
    (token token' : String) (m n : Memory) (cs : List (ℕ × Call))
    → d.revoked_at ≡ none
    → consume_pairing hash now k d token m ≡ (ok e, n)
    → (consume_pairing hash later k d' token' (run hash n cs)).0 ≢ ok e'
consume_pairing_once hash now later k d e d' e' token token' m n cs live h =
    let done = consume_pairing-Consumes hash now k d e token m n live h in
    used_refuses hash later k d' e' token' (run hash n cs)
      (run-IsUsed hash k n cs (record done.pairing { consumed_at = some now }, done.marked, refl))
