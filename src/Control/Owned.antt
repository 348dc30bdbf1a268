-- ===== src/Control/Owned.antt =====
-- What a request to the control plane makes of the owners of the pairings and of the devices.
use open_remote_commander.Prelude.{
  ℕ, ◌≡◌, refl, sym, subst, ap, ◌∙◌, String, true, List, [], ◌∷◌, none, some, All, ok, is_some,
  lookup, All-insert, All-lookup, arith,
}
use open_remote_commander.Store.{Device, Pairing}
use open_remote_commander.Store.Memory
use open_remote_commander.Store.Memory.{
  Memory, MemoryDevice, new_memory, authenticate_device, approved, pairing_at, refusal, step, Call,
  creates_device, touches, revokes, audits, creates_pairing, approves, consumes, approve_pairing,
  consume_pairing,
}
use open_remote_commander.Store.Memory.Cases.{
  touch_device_cases, revoke_device_cases, create_pairing_cases, approve_pairing_cases,
  consume_pairing_cases,
}
use open_remote_commander.Control
use open_remote_commander.Control.{Env, Control, Request, Response, Body}
use open_remote_commander.Control.Calls.{IsMade, Tells}
use open_remote_commander.Control.Calls.Answered.{handle_lem}
use open_remote_commander.Control.Routes.{handle}
use open_remote_commander.Prelude.{lookup-insert_self}
use open_remote_commander.Control.Provenance.{Approval, Issue}

issued_owner :
    (now : ℕ) (p : Pairing) (d : Device) → (Memory.issued now p d).owner_subject ≡ p.owner_subject
issued_owner now p d = ground arith

issued_id : (now : ℕ) (p : Pairing) (d : Device) → (Memory.issued now p d).id ≡ d.id
issued_id now p d = ground arith

module _ {A : Type 0} (P P' : A → Type 0) where
  pub All-imp : ((x : A) → P x → P' x) → (xs : List A) → All P xs → All P' xs
  All-imp f [] all = tt
  All-imp f (x ∷ xs) all = (f x all.0, All-imp f xs all.1)

module _ (Q : String → String → Type 0) (R : String → String → String → Type 0) where
  abbrev pub HasOwner : String × Pairing → Type 0
  HasOwner e = is_some e.1.approved_at ≡ true → Q e.0 e.1.owner_subject

  abbrev pub IsOwned : String × MemoryDevice → Type 0
  IsOwned e = R e.0 e.1.device.owner_subject e.1.token_hash

  -- The owners of the approved pairings are in `Q`, those of the devices in `R`.
  abbrev pub Owned : Memory → Type 0
  Owned m = All HasOwner m.pairings × All IsOwned m.devices

  pub pairing_owner :
      (k : String) (p : Pairing) (m : Memory) (now : ℕ)
      → lookup k m.pairings ≡ some p
      → refusal now p ≡ none
      → Owned m
      → Q k p.owner_subject
  pairing_owner k p m now at open_ o =
      All-lookup HasOwner k p m.pairings o.0 at (ground (arith, open_))

  module _ (env : Env) (r : Request) (s : Control) where
    -- What the request approves and whom it issues credentials is in `Q` and in `R`.
    abbrev pub Rules : Type 0
    Rules =
        ((k subject : String) → Approval env r s k subject → Q k subject)
        × ((k id subject hash : String) → Issue env r s k id subject hash → R id subject hash)

    -- The answer and the store are those of the request.
    abbrev Ends : ℕ → Body → Memory → Type 0
    Ends status body m =
        (status ≡ (handle env r s).0.status)
        → body ≡ (handle env r s).0.body
        → m ≡ (handle env r s).1.memory
        → Owned m

    step-Owned :
        (c : Call) (status : ℕ) (body : Body)
        → Rules
        → Owned s.memory
        → IsMade env r c
        → Tells env r s.memory status body c
        → Ends status body (step env.hash s.memory (r.stored_at, c))
    unfolding step
    step-Owned (creates_device d token) status body rules o made tells e f g = absurd made
    step-Owned (audits a) status body rules o made tells e f g = absurd made
    step-Owned (touches id) status body rules o made tells e f g =
        let m = s.memory in
        touch_device_cases (λ x. Owned x.1) m (λ _. o) r.stored_at id
          λ d at.
            (o.0, All-insert IsOwned id _ m.devices (All-lookup IsOwned id d m.devices o.1 at) o.1)
    step-Owned (revokes owner id) status body rules o made tells e f g =
        let m = s.memory in
        revoke_device_cases (λ x. Owned x.1) m (λ _. o) r.stored_at owner id
          λ d at own.
            (o.0, All-insert IsOwned id _ m.devices (All-lookup IsOwned id d m.devices o.1 at) o.1)
    step-Owned (creates_pairing p) status body rules o made tells e f g =
        create_pairing_cases (λ x. Owned x.1) s.memory (λ _. o) p
          λ free free'. (
            All-insert HasOwner p.device_code_hash p s.memory.pairings
                (λ h. ground (arith, made, h)) o.0,
            o.1,
          )
    step-Owned (approves code owner) status body rules o made tells e f g =
        approve_pairing_cases
          (λ x. (x.0 ≡ ok tt → status ≡ 200) → x.1 ≡ (handle env r s).1.memory → Owned x.1) s.memory
          (λ _ _ _. o) r.stored_at code owner
          (λ k at in_time unused fine ends.
            let p = approved r.stored_at owner (pairing_at k s.memory.pairings) in
            let done : Approval env r s k owner = record {
              grants = made.grants;
              typed = made.typed;
              is_typed = made.is_typed;
              named = subst (λ x. lookup x s.memory.user_code ≡ some k) (sym made.is_code) at;
              in_time = in_time;
              unused = unused;
              answered = sym e ∙ fine refl;
              stored =
                  subst (λ (x : Memory). lookup k x.pairings ≡ some p) ends
                    (lookup-insert_self k p s.memory.pairings);
            } in
            (All-insert HasOwner k p s.memory.pairings (λ _. rules.0 k owner done) o.0, o.1))
          tells g
    step-Owned (consumes k d token) status body rules o made tells e f g =
        consume_pairing_cases
          (λ x. ((x' : Device) → x.0 ≡ ok x' → body ≡ Control.issued x'.id token) → Owned x.1)
          s.memory (λ _ _. o) env.hash r.stored_at k d token
          (λ p at open_ free told.
            let owner = pairing_owner k p s.memory r.stored_at at open_ o in
            let done : Issue env r s k d.id (Memory.issued r.stored_at p d).owner_subject
                (env.hash token) =
              record {
                code = made.code;
                token = token;
                pairing = p;
                is_sent = made.is_sent;
                is_key = made.is_hash;
                found = at;
                is_open = open_;
                is_owner = sym (issued_owner r.stored_at p d);
                answered =
                    sym f
                    ∙ told (Memory.issued r.stored_at p d) refl
                    ∙ ap (λ i. Control.issued i token) (issued_id r.stored_at p d);
                is_hash = refl;
              } in
            (
              All-insert HasOwner k (record p { consumed_at = some r.stored_at }) s.memory.pairings
                  (λ _. owner) o.0,
              All-insert IsOwned d.id
                  (record { device = Memory.issued r.stored_at p d; token_hash = env.hash token })
                  s.memory.devices (rules.1 k d.id _ (env.hash token) done) o.1,
            ))
          tells

    pub handle-Owned : Rules → Owned s.memory → Owned (handle env r s).1.memory
    handle-Owned rules o =
        handle_lem env r Ends s (λ _ _ _ _ _. o)
          (λ c status body made tells. step-Owned c status body rules o made tells) refl refl refl
