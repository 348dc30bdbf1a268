-- ===== src/Control/Calls/Handled.antt =====
-- The handlers of internal/controlplane/http.go make one call of the store at most.
use open_remote_commander.Prelude.{
  ◌∙◌, ℕ, ◌≡◌, refl, ap, inl, inr, String, List, Option, none, some, Result, ok, err, Bool-cases,
  Result-cases, Option-cases, len, ltb, ◌==◌, str_eq, trim_space, ◌||◌,
}
use Prim.Native.String
use open_remote_commander.Control
use open_remote_commander.Auth.{Identity, require}
use open_remote_commander.Store
use open_remote_commander.Store.{Device}
use open_remote_commander.Store.Memory.{
  revoke_device, Memory, create_pairing, authenticate_device, step, touches, revokes,
  creates_pairing, approves, consumes,
}
use open_remote_commander.Control.{
  Body, issued, reply, started, Env, Control, AgentRequest, Request, Response, submits_form,
}
use open_remote_commander.Control.Codes.{normalize, human_code}
use open_remote_commander.Control.Pairing.{
  consume_answer, started_of, approve_decoded, approve_answer, invalid_user_code, new_pairing,
  stored, start_decoded, approved_with, hash_user_code, blank_device, consume_decoded, form_answer,
  form_parsed,
}
use open_remote_commander.Control.Devices.{revoked, revoke_device_of, agent_connect}
use open_remote_commander.Control.Calls.{typed_code, Same, Grants, Rule}

module _ (env : Env) (r : Request) (P : ℕ → Body → Memory → Type 0) where
  stored-P :
      (s : Control) (x : Result Store.Error (Unit {0}) × Memory) (done : Response)
      → Same env r P x.1
      → P (stored s x done).0.status (stored s x done).0.body (stored s x done).1.memory
  stored-P s (ok _, m) done h = h _ _
  stored-P s (err _, m) done h = h _ _

  revoked-P :
      (id : String) (s : Control) (x : Result Store.Error (Unit {0}) × Memory)
      → Same env r P x.1
      → P (revoked id s x).0.status (revoked id s x).0.body (revoked id s x).1.memory
  revoked-P id s (ok _, m) h = h _ _
  revoked-P id s (err _, m) h = h _ _

  pub start_decoded_lem : (body : Option String) → Rule env r P (start_decoded env r body)
  unfolding start_decoded step
  start_decoded_lem none s same made = same _ _
  start_decoded_lem (some raw) s same made =
      let name = trim_space raw in
      elim (Bool-cases (str_eq name "" || ltb 160 (len name))) [
        | inl bad ↦ rw bad (same _ _)
        | inr good ↦ rw good (elim (Option-cases r.first_random) [
          | inl broken ↦ rw broken (same _ _)
          | inr (secret, read) ↦ elim (Option-cases r.second_random) [
            | inl broken ↦ rw (read, broken) (same _ _)
            | inr (bytes, read') ↦
                let p = new_pairing env r.now name (env.base64 secret) (human_code bytes) in
                rw (read, read')
                  (stored-P s (create_pairing p s.memory)
                    (reply 201 (started (started_of env (env.base64 secret) (human_code bytes))))
                    (λ status body. made (creates_pairing p) status body (refl, refl) tt))
          ]
        ])
      ]

  pub approved_with_lem :
      (answer_to : Result Store.Error (Unit {0}) → Response) (invalid : Response) (raw : String)
      (identity : Identity)
      → (answer_to (ok tt)).status ≡ 200
      → Grants env r identity.subject
      → typed_code r.route ≡ some raw
      → Rule env r P (approved_with env r answer_to invalid raw identity)
  unfolding approved_with step
  approved_with_lem answer_to invalid raw identity fine grants at s same made =
      let code = normalize env.upper raw in
      elim (Bool-cases (len code == 8)) [
        | inl good ↦ rw good (
            made (approves (hash_user_code env code) identity.subject) _ _
              (record { grants = grants; typed = raw; is_typed = at; is_code = refl })
              (λ h. ap (λ x. (answer_to x).status) h ∙ fine))
        | inr bad ↦ rw bad (same _ _)
      ]

  pub approve_decoded_lem :
      (body : Option String) (identity : Identity)
      → Grants env r identity.subject
      → typed_code r.route ≡ body
      → Rule env r P (approve_decoded env r body identity)
  approve_decoded_lem none identity grants at = λ s same made. same _ _
  approve_decoded_lem (some raw) identity grants at =
      approved_with_lem approve_answer invalid_user_code raw identity refl grants at

  pub form_parsed_lem :
      (form : Option (List ℕ × String))
      → r.route ≡ submits_form form
      → Rule env r P (form_parsed env r form)
  unfolding form_parsed
  form_parsed_lem none at s same made = same _ _
  form_parsed_lem (some f) at s same made =
      elim (Result-cases (require (env.verifier r.now) f.0 "orc:tools")) [
        | inr (e, bad) ↦ rw (bad, form_parsed) (same _ _)
        | inl (identity, good) ↦
            let grants : Grants env r identity.subject = record {
              token = f.0;
              identity = identity;
              is_carried = rw at refl;
              accepted = good;
              is_subject = refl;
            } in
            rw (good, form_parsed)
              (approved_with_lem form_answer (form_answer (err Store.Error.not_found)) f.1 identity
                refl grants (ap typed_code at) s same made)
      ]

  pub consume_decoded_lem :
      (body : Option String)
      → r.route ≡ Control.consumes body
      → Rule env r P (consume_decoded env r body)
  unfolding consume_decoded step
  consume_decoded_lem none at s same made = same _ _
  consume_decoded_lem (some code) at s same made =
      elim (Bool-cases (ltb (len code) 32 || ltb 256 (len code))) [
        | inl bad ↦ rw bad (same _ _)
        | inr good ↦ rw good (elim (Option-cases r.first_random) [
          | inl broken ↦ rw broken (same _ _)
          | inr (id, read) ↦ elim (Option-cases r.second_random) [
            | inl broken ↦ rw (read, broken) (same _ _)
            | inr (secret, read') ↦
                rw (read, read')
                  (made
                    (consumes (env.hash code) (blank_device (String.◌++◌ "dev_" (env.hex id)))
                      (env.base64 secret))
                    _ _ (record { code = code; is_sent = at; is_hash = refl; is_live = refl })
                    (λ e h. ap (λ x. (consume_answer (env.base64 secret) x).body) h))
          ]
        ])
      ]

  pub revoke_lem :
      (id : String) (identity : Identity)
      → Grants env r identity.subject
      → Rule env r P (revoke_device_of r id identity)
  unfolding revoke_device_of step
  revoke_lem id identity grants s same made = elim (Bool-cases (str_eq id "")) [
    | inl blank ↦ rw blank (same _ _)
    | inr named ↦ rw named (
        revoked-P id s (revoke_device r.stored_at identity.subject id s.memory)
          (λ status body. made (revokes identity.subject id) status body grants tt))
  ]

  pub connect_lem : (a : AgentRequest) → Rule env r P (agent_connect env r a)
  unfolding agent_connect step
  connect_lem a s same made = elim (Bool-cases (str_eq (trim_space a.device_id) "")) [
    | inl blank ↦ rw blank (same _ _)
    | inr named ↦ elim (Option-cases a.token) [
      | inl missing ↦ rw (named, missing) (same _ _)
      | inr (token, given) ↦ elim (Bool-cases (str_eq (trim_space r.origin) "")) [
        | inr browser ↦ rw (named, given, browser) (same _ _)
        | inl plain ↦
            elim (Result-cases
              (authenticate_device env.hash (trim_space a.device_id) token s.memory)) [
                | inr (e, bad) ↦ rw (named, given, plain, bad) (same _ _)
                | inl (d, good) ↦ elim (Bool-cases a.upgraded) [
                  | inl is ↦ rw (named, given, plain, good, is) (made (touches d.id) _ _ tt tt)
                  | inr fails ↦ rw (named, given, plain, good, fails) (same _ _)
                ]
              ]
      ]
    ]
  ]
