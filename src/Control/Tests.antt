-- ===== src/Control/Tests.antt =====
-- A pairing over HTTP from start to end, a revocation, and what the theorems say of them.
use open_remote_commander.Prelude.{
  List, some, inl, len, ltb, str_eq, ◌||◌, false, eq_iff, arith, subst, sym, ◌∙◌, trim_space,
  lookup, insert, ap, ℕ, ◌≡◌, ◌≢◌, refl, String, true, false, [], ◌∷◌, none, some, ok,
}
use open_remote_commander.Prelude.Int.{pos}
use open_remote_commander.Auth.{contains, require, Identity}
use open_remote_commander.Store.{Device, Pairing}
use open_remote_commander.Store.Memory.{
  create_pairing, approve_pairing, consume_pairing, pairing_at, revoke_device, new_memory,
  authenticate_device,
}
use open_remote_commander.Relay.{new_hub}
use open_remote_commander.Limiter.{allow, refilled, bucket_of}
use open_remote_commander.Control.{
  limit_key, reply, Response, Env, Control, Request, Route, AgentRequest, starts, approves,
  consumes, revokes, connects, issued, connected,
}
use open_remote_commander.Control.Codes.{to_upper, letters, trim_slashes, human_code, normalize}
use open_remote_commander.Control.Owners.{owner-IsPaired}
use open_remote_commander.Control.Provenance.{IsPaired}
use open_remote_commander.Control.Lifetimes.{credentials_once}
use open_remote_commander.Control.Revocations.{revoke_final}
use open_remote_commander.Control.Codes.Printed.{normalize-human_code}
use open_remote_commander.Control.Completed.{pairing_completes}
use open_remote_commander.Control.Pairing.{start_decoded, approve_decoded, consume_decoded}
use open_remote_commander.Control.Routes.{handle, serve_all}

code_read : normalize (λ c. c) " ABCD-EFGH" ≡ "ABCDEFGH"
unfolding normalize trim_space
code_read = refl

code_made : human_code (0 ∷ 33 ∷ 66 ∷ 3 ∷ 4 ∷ 5 ∷ 6 ∷ 31 ∷ []) ≡ "ABCD-EFG9"
unfolding human_code
code_made = refl

abbrev alice : Identity
alice = record { subject = "alice"; scopes = "orc:tools" ∷ []; expiry = pos 0 }

-- The device code and the device's token are both this text.
abbrev secret : String
secret = "0123456789abcdef0123456789abcdef"

abbrev env : Env
env = record {
  base_url = "https://orc.example/";
  origins = "https://app.example" ∷ [];
  verifier = λ now token. ok alice;
  hash = λ s. s;
  mac = λ s. s;
  upper = λ c. c;
  base64 = λ b. secret;
  hex = λ b. "1";
  escape = λ s. s;
}

abbrev new_control : Control
new_control = record { memory = new_memory; hub = new_hub 4; pair_buckets = []; token_buckets = [] }

abbrev asking : ℕ → Route → Request
asking now route = record {
  route = route;
  host = "10.0.0.1";
  origin = "";
  limited_at = now;
  now = now;
  stored_at = now;
  first_random = some (0 ∷ []);
  second_random = some (0 ∷ 1 ∷ 2 ∷ 3 ∷ 4 ∷ 5 ∷ 6 ∷ 7 ∷ []);
}

abbrev start : Request
start = asking 1 (starts (some "laptop"))

abbrev approve : Request
approve = asking 2 (approves (some []) (some "ABCD-EFGH"))

abbrev consume : Request
consume = asking 3 (consumes (some secret))

abbrev revoke : Request
revoke = asking 4 (revokes (some []) "dev_1")

abbrev agent : AgentRequest
agent = record { device_id = "dev_1"; token = some secret; upgraded = true }

abbrev connect : Request
connect = asking 5 (connects agent)

abbrev pairing : Pairing
pairing = record {
  device_code_hash = secret;
  user_code_hash = "ABCDEFGH";
  device_name = "laptop";
  expires_at = 600000000001;
  owner_subject = "";
  approved_at = none;
  consumed_at = none;
}

abbrev granted : Pairing
granted = record pairing { owner_subject = "alice"; approved_at = some 2 }

abbrev laptop : Device
laptop = record {
  id = "dev_1";
  owner_subject = "alice";
  name = "laptop";
  created_at = 3;
  last_seen_at = none;
  revoked_at = none;
  online = false;
}

abbrev asked : Control
asked = record new_control {
  memory = record new_memory {
    pairings = (secret, pairing) ∷ [];
    user_code = ("ABCDEFGH", secret) ∷ [];
  };
  pair_buckets = (limit_key "pair-start" "10.0.0.1", bucket_of 20000000000 1) ∷ [];
}

abbrev allowed : Control
allowed = record asked {
  memory = record asked.memory { pairings = (secret, granted) ∷ [] };
  pair_buckets =
      (limit_key "pair-start" "10.0.0.1", bucket_of 20000000000 1)
      ∷ (limit_key "pair-approve" "10.0.0.1", bucket_of 20000000000 2)
      ∷ [];
}

abbrev paired : Control
paired = record allowed {
  memory = record allowed.memory {
    devices = ("dev_1", record { device = laptop; token_hash = secret }) ∷ [];
    pairings = (secret, record granted { consumed_at = some 3 }) ∷ [];
  };
  token_buckets = (limit_key "pair-token" "10.0.0.1", bucket_of 9000000000 3) ∷ [];
}

start_run : (handle env start new_control).1 ≡ asked
unfolding handle trim_space trim_slashes allow refilled lookup insert create_pairing human_code
    normalize
start_run = refl

approve_run : (handle env approve asked).1 ≡ allowed
unfolding handle trim_space trim_slashes allow refilled lookup insert require contains
    approve_pairing normalize pairing_at
approve_run = refl

consume_run : handle env consume allowed ≡ (reply 200 (issued "dev_1" secret), paired)
unfolding handle trim_space trim_slashes allow refilled lookup insert consume_pairing
consume_run = refl

connects_first : (handle env connect paired).0.body ≡ connected
unfolding handle trim_space authenticate_device lookup
connects_first = refl

served : serve_all env (start ∷ approve ∷ consume ∷ []) new_control ≡ paired
unfolding serve_all
served =
    ap (serve_all env (approve ∷ consume ∷ [])) start_run
    ∙ ap (serve_all env (consume ∷ [])) approve_run
    ∙ ap (λ (x : Response × Control). x.1) consume_run

accepted :
    authenticate_device
      (λ s. s)
      "dev_1"
      secret
      (serve_all env (start ∷ approve ∷ consume ∷ []) new_control).memory
    ≡ ok laptop
unfolding authenticate_device lookup
accepted =
    subst (λ (x : Control). authenticate_device (λ s. s) "dev_1" secret x.memory ≡ ok laptop)
      (sym served) refl

owner-IsPaired_example :
    IsPaired env new_control (start ∷ approve ∷ consume ∷ []) "dev_1" "alice" secret
owner-IsPaired_example =
    owner-IsPaired env (start ∷ approve ∷ consume ∷ []) new_control "dev_1" secret laptop refl
      accepted

credentials_once_example :
    (handle env consume (serve_all env (revoke ∷ []) (handle env consume allowed).1)).0.body
    ≢ issued "dev_1" secret
credentials_once_example =
    credentials_once env consume consume (revoke ∷ []) allowed secret "dev_1" secret "dev_1" secret
      refl refl (ap (λ (x : Response × Control). x.0.body) consume_run)

revocation : (handle env revoke paired).0.status ≡ 204
unfolding handle trim_space trim_slashes require contains lookup revoke_device
revocation = refl

named : revoke.route ≡ revokes (some []) (trim_space agent.device_id)
unfolding trim_space
named = refl

revoke_final_example :
    let after = serve_all env (start ∷ []) (handle env revoke paired).1 in
    ((handle env connect after).0.body ≢ connected) × ((handle env connect after).1 ≡ after)
revoke_final_example =
    revoke_final env revoke connect (start ∷ []) paired (some []) agent named revocation refl

abbrev bytes : List ℕ
bytes = 0 ∷ 1 ∷ 2 ∷ 3 ∷ 4 ∷ 5 ∷ 6 ∷ 7 ∷ []

typed_shown : to_upper (λ c. c) (trim_space " ABCD-EFGH ") ≡ human_code bytes
unfolding to_upper trim_space human_code
typed_shown = refl

normalize-human_code_example :
    (normalize (λ c. c) " ABCD-EFGH " ≡ letters bytes)
    × (normalize (λ c. c) (letters bytes) ≡ letters bytes)
    × (len (letters bytes) ≡ 8)
normalize-human_code_example =
    normalize-human_code (λ c. c) bytes " ABCD-EFGH " refl (λ c _. refl) (inl typed_shown)

laptop_named : (str_eq (trim_space "laptop") "" || ltb 160 (len (trim_space "laptop"))) ≡ false
unfolding trim_space
laptop_named = refl

nothing : {V : Type 0} (k : String) → lookup {V = V} k [] ≡ none
unfolding lookup
nothing k = refl

pairing_completes_example :
    let s₁ = (start_decoded env start (some "laptop") new_control).1 in
    let s₂ = (approve_decoded env approve (some " ABCD-EFGH ") alice s₁).1 in
    let (answer, s₃) = consume_decoded env consume (some secret) s₂ in
    (d : Device) × (answer ≡ reply 200 (issued d.id secret))
    × (authenticate_device env.hash d.id secret s₃.memory ≡ ok d)
    × (d.owner_subject ≡ "alice")
    × (d.name ≡ trim_space "laptop")
pairing_completes_example =
    pairing_completes env start approve consume new_control "laptop" " ABCD-EFGH " alice (0 ∷ [])
      bytes (0 ∷ []) bytes laptop_named refl refl refl (λ c _. refl) refl (nothing _) (nothing _)
      (inl typed_shown) (omega arith) (ground (arith, eq_iff "alice" "")) refl refl (omega arith)
      (nothing _)
