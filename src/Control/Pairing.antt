-- ===== src/Control/Pairing.antt =====
-- The handlers of a pairing in internal/controlplane/http.go: `startPairing`, `approvePairing`,
-- `consumePairing` and `pairApproveForm`.
use open_remote_commander.Prelude.{
  ℕ, ◌+◌, ◌*◌, String, false, not, ◌||◌, List, Option, none, some, Result, ok, err, len, ltb, ◌==◌,
  str_eq, if◌then◌else◌, trim_space,
}
use Prim.Native.String
use open_remote_commander.Auth.{Identity, require}
use open_remote_commander.Store
use open_remote_commander.Store.{Device, Pairing, pairing_expired, pairing_used, pairing_pending}
use open_remote_commander.Store.Memory.{Memory, create_pairing, approve_pairing, consume_pairing}
use open_remote_commander.Limiter.{allow}
use open_remote_commander.Control.Codes.{human_code, normalize, trim_slashes}
use open_remote_commander.Control.{
  Env, Control, Request, Started, started, approved, issued, page, Response, reply, write_error,
  retry, second, token_rate, limit_key, limit_pairs, too_many, bad_json, with_random, http_error,
}

abbrev pub limit_tokens :
    Request → Control → Response → (Control → Response × Control) → Response × Control
limit_tokens r s busy next =
    let (free, buckets) =
      allow token_rate r.limited_at (limit_key "pair-token" r.host) s.token_buckets in
    let s' = record s { token_buckets = buckets } in if free then next s' else (busy, s')

abbrev pub hash_user_code : Env → String → String
hash_user_code env code = env.mac (normalize env.upper code)

abbrev pub new_pairing : Env → ℕ → String → String → String → Pairing
new_pairing env now name device_code user_code = record {
  device_code_hash = env.hash device_code;
  user_code_hash = hash_user_code env user_code;
  device_name = name;
  expires_at = now + 600 * second;
  owner_subject = "";
  approved_at = none;
  consumed_at = none;
}

abbrev pub started_of : Env → String → String → Started
started_of env device_code user_code =
    let verify = String.◌++◌ (trim_slashes env.base_url) "/pair" in
    record {
      device_code = device_code;
      user_code = user_code;
      verification_uri = verify;
      verification_uri_complete =
          String.◌++◌ verify (String.◌++◌ "?user_code=" (env.escape user_code));
      expires_in = 600;
      interval = 3;
    }

abbrev pub stored : Control → Result Store.Error (Unit {0}) × Memory → Response → Response × Control
stored s (ok _, m) done = (done, record s { memory = m })
stored s (err _, m) done =
    (write_error 500 "internal_error" "could not create pairing", record s { memory = m })

-- startPairing once the limiter lets it through.
unfoldable pub start_decoded : Env → Request → Option String → Control → Response × Control
start_decoded env r none s = (bad_json, s)
start_decoded env r (some raw) s =
    let name = trim_space raw in
    if str_eq name "" || ltb 160 (len name)
    then (write_error 400 "invalid_arguments" "device_name is required and must be <= 160 bytes", s)
    else with_random "could not create pairing" r.first_random s λ secret.
      with_random "could not create pairing" r.second_random s λ letters.
        let device_code = env.base64 secret in
        let user_code = human_code letters in
        stored s (create_pairing (new_pairing env r.now name device_code user_code) s.memory)
          (reply 201 (started (started_of env device_code user_code)))

unfoldable pub start_pairing : Env → Request → Option String → Control → Response × Control
unfolding start_decoded
start_pairing env r body s = limit_pairs "pair-start" r s too_many (start_decoded env r body)

-- The answer of approvePairing to what the store says.
abbrev pub approve_answer : Result Store.Error (Unit {0}) → Response
approve_answer (ok _) = reply 200 approved
approve_answer (err pairing_expired) = write_error 410 "expired_token" "pairing expired"
approve_answer (err pairing_used) = write_error 410 "invalid_grant" "pairing already used"
approve_answer (err _) = write_error 404 "not_found" "pairing not found"

-- ApprovePairing for a code of eight bytes, and the handler's answer to what it says.
unfoldable pub approved_with :
    Env
    → Request
    → (Result Store.Error (Unit {0}) → Response)
    → Response
    → String
    → Identity
    → Control
    → Response × Control
approved_with env r answer_to invalid raw identity s =
    let code = normalize env.upper raw in
    if not (len code == 8)
    then (invalid, s)
    else (let (answer, m) =
          approve_pairing r.stored_at (hash_user_code env code) identity.subject s.memory in
        (answer_to answer, record s { memory = m }))

abbrev pub invalid_user_code : Response
invalid_user_code = write_error 400 "invalid_arguments" "invalid user_code"

-- approvePairing once the limiter lets it through.
abbrev pub approve_decoded : Env → Request → Option String → Identity → Control → Response × Control
approve_decoded env r none identity s = (bad_json, s)
approve_decoded env r (some raw) identity s =
    approved_with env r approve_answer invalid_user_code raw identity s

unfoldable pub approve_pairing_of :
    Env → Request → Option String → Identity → Control → Response × Control
unfolding approved_with
approve_pairing_of env r body identity s =
    limit_pairs "pair-approve" r s too_many (approve_decoded env r body identity)

-- The device that the handler hands to ConsumePairing.
abbrev pub blank_device : String → Device
blank_device id = record {
  id = id;
  owner_subject = "";
  name = "";
  created_at = 0;
  last_seen_at = none;
  revoked_at = none;
  online = false;
}

abbrev pub consume_answer : String → Result Store.Error Device → Response
consume_answer token (ok d) = reply 200 (issued d.id token)
consume_answer token (err pairing_pending) =
    write_error 428 "authorization_pending" "pairing has not been approved yet"
consume_answer token (err pairing_expired) = write_error 410 "expired_token" "pairing expired"
consume_answer token (err pairing_used) = write_error 410 "invalid_grant" "pairing already used"
consume_answer token (err _) = write_error 400 "invalid_grant" "invalid device_code"

-- consumePairing once the limiter lets it through.
unfoldable pub consume_decoded : Env → Request → Option String → Control → Response × Control
consume_decoded env r none s = (bad_json, s)
consume_decoded env r (some device_code) s =
    if ltb (len device_code) 32 || ltb 256 (len device_code)
    then (write_error 400 "invalid_arguments" "invalid device_code", s)
    else with_random "could not issue credentials" r.first_random s λ id.
      with_random "could not issue credentials" r.second_random s λ secret.
        let token = env.base64 secret in
        let (answer, m) =
          consume_pairing env.hash r.stored_at (env.hash device_code)
            (blank_device (String.◌++◌ "dev_" (env.hex id))) token s.memory in
        (consume_answer token answer, record s { memory = m })

abbrev pub slow_down : Response
slow_down = retry 3 (write_error 429 "slow_down" "polling too quickly")

unfoldable pub consume_pairing_of : Env → Request → Option String → Control → Response × Control
unfolding consume_decoded
consume_pairing_of env r body s = limit_tokens r s slow_down (consume_decoded env r body)

abbrev pub form_answer : Result Store.Error (Unit {0}) → Response
form_answer (ok _) = reply 200 (page "Device approved. You may close this page.")
form_answer (err _) = http_error 400 "invalid or expired pairing code"

-- pairApproveForm once the limiter lets it through. A form without a token has the empty one.
unfoldable pub form_parsed : Env → Request → Option (List ℕ × String) → Control → Response × Control
unfolding approved_with
form_parsed env r none s = (http_error 400 "bad request", s)
form_parsed env r (some f) s = elim (require (env.verifier r.now) f.0 "orc:tools") [
  | err e ↦ (http_error 401 "invalid token or scope", s)
  | ok identity ↦
      approved_with env r form_answer (form_answer (err Store.Error.not_found)) f.1 identity s
]

unfoldable pub pair_approve_form :
    Env → Request → Option (List ℕ × String) → Control → Response × Control
unfolding form_parsed
pair_approve_form env r form s =
    limit_pairs "pair-form-approve" r s (retry 5 (http_error 429 "too many attempts"))
      (form_parsed env r form)
