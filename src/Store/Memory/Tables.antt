-- ===== src/Store/Memory/Tables.antt =====
-- What the tables of pairings and user codes in internal/store/memory.go hold of one another.
use open_remote_commander.Prelude.{
  ℕ, ◌≡◌, refl, sym, ap, ◌∙◌, inl, inr, String, true, none, some, str_eq, is_some, arith, lookup,
  insert, lookup-insert, eq_iff, Bool-cases,
}
use open_remote_commander.Store.{Pairing}
use open_remote_commander.Store.Memory.Cases.{
  create_device_cases, touch_device_cases, revoke_device_cases, create_pairing_cases,
  approve_pairing_cases, consume_pairing_cases,
}
use open_remote_commander.Store.Memory.{
  Memory, write_audit, pairing_at, step, Call, creates_device, touches, revokes, audits,
  creates_pairing, approves, consumes,
}

-- What the tables hold of one another: a pairing stands under its device code's hash, a user code
-- leads to the pairing with that user code, and what is consumed was approved.
pub record WellFormed (m : Memory) : Type 0 where
  pub keyed : (k : String) (p : Pairing) → lookup k m.pairings ≡ some p → p.device_code_hash ≡ k
  pub linked :
      (u k : String)
      → lookup u m.user_code ≡ some k
      → (p : Pairing) × (lookup k m.pairings ≡ some p) × (p.user_code_hash ≡ u)
  pub ordered :
      (k : String) (p : Pairing)
      → lookup k m.pairings ≡ some p
      → is_some p.consumed_at ≡ true
      → is_some p.approved_at ≡ true

-- Writing the tables of pairings, by the pairing that is put under `k`.
put-WellFormed :
    (m : Memory) (k : String) (old new : Pairing)
    → WellFormed m
    → lookup k m.pairings ≡ some old
    → new.device_code_hash ≡ old.device_code_hash
    → new.user_code_hash ≡ old.user_code_hash
    → (is_some new.consumed_at ≡ true → is_some new.approved_at ≡ true)
    → WellFormed (record m { pairings = insert k new m.pairings })
put-WellFormed m k old new v at same_device same_user order = record {
  keyed = λ j p e.
      ground (arith, lookup-insert k j new m.pairings, eq_iff k j, v.keyed j p, v.keyed k old at);
  linked = λ u j e.
      let (p, there, user) = v.linked u j e in
      let now_at = lookup-insert k j new m.pairings in
      elim (Bool-cases (str_eq k j)) [
        | inl same ↦ (new, ground (arith, now_at), ground (arith, eq_iff k j))
        | inr other ↦ (p, ground (arith, now_at), user)
      ];
  ordered = λ j p e used.
      ground (arith, lookup-insert k j new m.pairings, eq_iff k j, v.ordered j p, order);
}

-- A new pairing under a free device code and a free user code.
add-WellFormed :
    (m : Memory) (p : Pairing)
    → WellFormed m
    → lookup p.device_code_hash m.pairings ≡ none
    → lookup p.user_code_hash m.user_code ≡ none
    → (is_some p.consumed_at ≡ true → is_some p.approved_at ≡ true)
    → WellFormed (record m {
      pairings = insert p.device_code_hash p m.pairings;
      user_code = insert p.user_code_hash p.device_code_hash m.user_code;
    })
add-WellFormed m p v free_device free_user order = record {
  keyed = λ j q e. ground (
    arith,
    lookup-insert p.device_code_hash j p m.pairings,
    eq_iff p.device_code_hash j,
    v.keyed j q,
  );
  linked = λ u j e.
      let user_at = lookup-insert p.user_code_hash u p.device_code_hash m.user_code in
      let now_at = lookup-insert p.device_code_hash j p m.pairings in
      elim (Bool-cases (str_eq p.user_code_hash u)) [
        | inl same ↦ (
          p,
          ground (arith, now_at, user_at, eq_iff p.device_code_hash j),
          ground (arith, eq_iff p.user_code_hash u),
        )
        | inr other ↦
            let (q, there, user) = v.linked u j (ground (arith, user_at)) in
            (q, ground (arith, now_at, eq_iff p.device_code_hash j), user)
      ];
  ordered = λ j q e used. ground (
    arith,
    lookup-insert p.device_code_hash j p m.pairings,
    eq_iff p.device_code_hash j,
    v.ordered j q,
    order,
  );
}

-- Only pairings that are new, as the control plane creates them, are added.
abbrev pub IsFresh : Call → Type 0
IsFresh (creates_pairing p) = (p.approved_at ≡ none) × (p.consumed_at ≡ none)
IsFresh _ = Unit

same_tables :
    (m n : Memory)
    → n.pairings ≡ m.pairings
    → n.user_code ≡ m.user_code
    → WellFormed m
    → WellFormed n
same_tables m n e f v = record {
  keyed = λ k p at. v.keyed k p (ap (lookup k) (sym e) ∙ at);
  linked = λ u k at.
      let (p, there, user) = v.linked u k (ap (lookup u) (sym f) ∙ at) in
      (p, ap (lookup k) e ∙ there, user);
  ordered = λ k p at. v.ordered k p (ap (lookup k) (sym e) ∙ at);
}

-- The pairing that a user code leads to is there.
pairing_at-linked :
    (m : Memory) (u k : String)
    → WellFormed m
    → lookup u m.user_code ≡ some k
    → lookup k m.pairings ≡ some (pairing_at k m.pairings)
unfolding pairing_at
pairing_at-linked m u k v e = let (p, at, user) = v.linked u k e in ground (arith, at)

pub pairing_at-found :
    (k : String) (p : Pairing) (m : Memory)
    → lookup k m.pairings ≡ some p
    → pairing_at k m.pairings ≡ p
unfolding pairing_at
pairing_at-found k p m e = ground arith

-- Every call but one that creates a pairing which is approved or consumed already keeps the tables of
-- the store consistent: keys, the links from user codes to pairings, and that what is consumed was
-- approved.
pub step-WellFormed :
    (hash : String → String) (m : Memory) (now : ℕ) (c : Call)
    → IsFresh c
    → WellFormed m
    → WellFormed (step hash m (now, c))
unfolding step write_audit
step-WellFormed hash m now (creates_device d token) fresh v =
    create_device_cases (λ r. WellFormed r.1) m (λ _. v) hash now d token
      (λ _. same_tables m _ refl refl v)
step-WellFormed hash m now (touches id) fresh v =
    touch_device_cases (λ r. WellFormed r.1) m (λ _. v) now id (λ d _. same_tables m _ refl refl v)
step-WellFormed hash m now (revokes owner id) fresh v =
    revoke_device_cases (λ r. WellFormed r.1) m (λ _. v) now owner id
      (λ d _ _. same_tables m _ refl refl v)
step-WellFormed hash m now (audits e) fresh v = same_tables m _ refl refl v
step-WellFormed hash m now (creates_pairing p) fresh v =
    create_pairing_cases (λ r. WellFormed r.1) m (λ _. v) p
      (λ e f. add-WellFormed m p v e f (λ used. ground (arith, fresh)))
step-WellFormed hash m now (approves code owner) fresh v =
    approve_pairing_cases (λ r. WellFormed r.1) m (λ _. v) now code owner
      (λ k e _ _.
        put-WellFormed m k (pairing_at k m.pairings) _ v (pairing_at-linked m code k v e) refl refl
          (λ _. refl))
step-WellFormed hash m now (consumes k d token) fresh v =
    consume_pairing_cases (λ r. WellFormed r.1) m (λ _. v) hash now k d token
      (λ p e f _.
        same_tables
          (record m { pairings = insert k (record p { consumed_at = some now }) m.pairings }) _ refl
          refl (put-WellFormed m k p _ v e refl refl (λ _. ground (arith, f))))
