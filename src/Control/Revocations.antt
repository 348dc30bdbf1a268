-- ===== src/Control/Revocations.antt =====
-- Revocations of internal/controlplane/http.go: a revoked device does not connect again.
use open_remote_commander.Prelude.{
  ℕ, ◌≡◌, ◌≢◌, refl, ap, subst, inl, inr, String, List, Option, none, some, ok, err, Result-cases,
  Option-cases, Bool-cases, str_eq, trim_space, arith,
}
use open_remote_commander.Auth
use open_remote_commander.Auth.{Identity, require}
use open_remote_commander.Store
use open_remote_commander.Store.{Device}
use open_remote_commander.Store.Memory.{authenticate_device, revoke_device}
use open_remote_commander.Store.Memory.Devices.{revoke_device_final}
use open_remote_commander.Control.{
  require_user, Env, Control, Request, Response, AgentRequest, connects, revokes, connected,
}
use open_remote_commander.Control.Devices.{revoke_device_of, agent_connect}
use open_remote_commander.Control.Routes.{answer, handle, serve_all, cors, origin_of, is_allowed}
use open_remote_commander.Control.Driven.{serve_all-Driven}

-- What a revocation that is answered with success did to the store.
abbrev Revoked : Request → String → Control → Response × Control → Type 0
Revoked r id s x =
    (owner : String) × (revoke_device r.stored_at owner id s.memory ≡ (ok tt, x.1.memory))

revoke_device_of-Revoked :
    (r : Request) (id : String) (identity : Identity) (s : Control)
    → (revoke_device_of r id identity s).0.status ≡ 204
    → Revoked r id s (revoke_device_of r id identity s)
unfolding revoke_device_of
revoke_device_of-Revoked r id identity s = elim (Bool-cases (str_eq id "")) [
  | inl blank ↦ rw blank (λ h. absurd (omega (arith, h)))
  | inr named ↦
      let got = revoke_device r.stored_at identity.subject id s.memory in
      rw named (elim (Result-cases got.0) [
        | inr (e, refused) ↦ rw refused (λ h. absurd (omega (arith, h)))
        | inl (_, fine) ↦ rw fine (λ h. (identity.subject, ap (λ x. (x, got.1)) fine))
      ])
]

require_user-Revoked :
    (env : Env) (r : Request) (id : String) (token : Option (List ℕ)) (s : Control)
    → (require_user env r token s λ identity. revoke_device_of r id identity s).0.status ≡ 204
    → Revoked r id s (require_user env r token s λ identity. revoke_device_of r id identity s)
require_user-Revoked env r id none s = λ h. absurd (omega (arith, h))
require_user-Revoked env r id (some token) s =
    elim (Result-cases (require (env.verifier r.now) token "orc:tools")) [
      | inr (Auth.Error.scope, bad) ↦ rw (bad, require_user) (λ h. absurd (omega (arith, h)))
      | inr (Auth.Error.invalid_token, bad) ↦
          rw (bad, require_user) (λ h. absurd (omega (arith, h)))
      | inr (Auth.Error.unreachable, bad) ↦ rw (bad, require_user) (λ h. absurd (omega (arith, h)))
      | inr (Auth.Error.failed message, bad) ↦
          rw (bad, require_user) (λ h. absurd (omega (arith, h)))
      | inl (identity, good) ↦ rw (good, require_user) (revoke_device_of-Revoked r id identity s)
    ]

handle-Revoked :
    (env : Env) (r : Request) (token : Option (List ℕ)) (id : String) (s : Control)
    → r.route ≡ revokes token id
    → (handle env r s).0.status ≡ 204
    → Revoked r id s (handle env r s)
unfolding handle answer cors
handle-Revoked env r token id s at = rw at (elim (Bool-cases (str_eq (origin_of r) "")) [
  | inl plain ↦ rw plain (require_user-Revoked env r id token s)
  | inr given ↦ elim (Bool-cases (is_allowed (origin_of r) env.origins)) [
    | inl known ↦ rw (given, known) (require_user-Revoked env r id token s)
    | inr foreign ↦ rw (given, foreign) (λ h. absurd (omega (arith, h)))
  ]
])

-- A device whose token the store refuses is not connected, and nothing changes.
agent_connect_refused :
    (env : Env) (r : Request) (a : AgentRequest) (s : Control) (e : Store.Error)
    → ((token : String)
        → authenticate_device env.hash (trim_space a.device_id) token s.memory ≡ err e)
    → ((agent_connect env r a s).0.body ≢ connected) × ((agent_connect env r a s).1 ≡ s)
unfolding agent_connect
agent_connect_refused env r a s e refuses = elim (Bool-cases (str_eq (trim_space a.device_id) "")) [
  | inl blank ↦ rw blank (λ h. cc h, refl)
  | inr named ↦ elim (Option-cases a.token) [
    | inl missing ↦ rw (named, missing) (λ h. cc h, refl)
    | inr (token, given) ↦ elim (Bool-cases (str_eq (trim_space r.origin) "")) [
      | inr browser ↦ rw (named, given, browser) (λ h. cc h, refl)
      | inl plain ↦ rw (named, given, plain, refuses token) (λ h. cc h, refl)
    ]
  ]
]

-- Once the revocation of a device is answered with success, the device does not connect again, with
-- any token: a later request to connect as it leaves all as it is, whatever requests come between.
pub revoke_final :
    (env : Env) (r later : Request) (rs : List Request) (s : Control) (token : Option (List ℕ))
    (a : AgentRequest)
    → r.route ≡ revokes token (trim_space a.device_id)
    → (handle env r s).0.status ≡ 204
    → later.route ≡ connects a
    → let after = serve_all env rs (handle env r s).1 in
      ((handle env later after).0.body ≢ connected) × ((handle env later after).1 ≡ after)
unfolding handle answer
revoke_final env r later rs s token a at done at' =
    let id = trim_space a.device_id in
    let (owner, gone) = handle-Revoked env r token id s at done in
    let after = serve_all env rs (handle env r s).1 in
    let (cs, driven) = serve_all-Driven env rs (handle env r s).1 in
    rw at' (
      agent_connect_refused env later a after Store.Error.unauthorized λ t.
        subst (λ m. authenticate_device env.hash id t m ≡ err Store.Error.unauthorized) driven
          (revoke_device_final env.hash r.stored_at owner id "" t s.memory (handle env r s).1.memory
            cs gone).0)
