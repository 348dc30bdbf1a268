-- ===== src/Control.antt =====
-- internal/controlplane/http.go: the state of the control plane, and what its handlers share. A request
-- says what the router, the JSON decoder and the bearer header give the handler, and when it is
-- handled; the store is the in-memory one. A response body is a value of its own.
pub mod Codes
pub mod Pairing
pub mod Devices
pub mod Routes
pub mod Calls
pub mod Provenance
pub mod Owned
pub mod Owners
pub mod Driven
pub mod Lifetimes
pub mod Completed
pub mod Revocations
mod Tests
use open_remote_commander.Prelude.{
  ℕ, ◌+◌, ◌*◌, String, Bool, true, false, not, ◌||◌, List, [], ◌∷◌, Option, none, some, Map, Result,
  ok, err, map, len, ltb, ◌==◌, str_eq, if◌then◌else◌, trim_space,
}
use Prim.Native.Char.{Char}
use Prim.Native.String
use open_remote_commander.Auth
use open_remote_commander.Auth.{Identity, require}
use open_remote_commander.Store.Memory.{Memory}
use open_remote_commander.Relay.{Hub}
use open_remote_commander.Limiter.{Rate, Bucket, allow}

-- What the program is started with, and the packages that it calls: `hash` is HashSecret, `mac` the
-- hexadecimal HMAC under the pairing secret, `upper` unicode.ToUpper, `base64` the raw URL encoding,
-- `hex` the verb %x and `escape` url.QueryEscape. `verifier` answers at a time.
pub record Env : Type 0 where
  pub base_url : String
  pub origins : List String
  pub verifier : ℕ → List ℕ → Result Auth.Error Identity
  pub hash : String → String
  pub mac : String → String
  pub upper : Char → Char
  pub base64 : List ℕ → String
  pub hex : List ℕ → String
  pub escape : String → String

pub record Control : Type 0 where
  pub memory : Memory
  pub hub : Hub
  pub pair_buckets : Map Bucket
  pub token_buckets : Map Bucket

-- `token` is what BearerToken finds; `upgraded` says whether ws.Upgrade succeeds.
pub record AgentRequest : Type 0 where
  pub device_id : String
  pub token : Option String
  pub upgraded : Bool

-- The routes. A body is none where decodeJSON or ParseForm fails, else the field that it holds.
pub data Route : Type 0 where
  starts : Option String → Route
  approves : Option (List ℕ) → Option String → Route
  consumes : Option String → Route
  lists : Option (List ℕ) → Route
  revokes : Option (List ℕ) → String → Route
  asks_options : Route
  connects : AgentRequest → Route
  shows_page : String → Route
  submits_form : Option (List ℕ × String) → Route

-- `limited_at`, `now` and `stored_at` are the times that the limiter, the handler and the store read;
-- `first_random` and `second_random` are what the reads of crypto/rand give, none for an error.
pub record Request : Type 0 where
  pub route : Route
  pub host : String
  pub origin : String
  pub limited_at : ℕ
  pub now : ℕ
  pub stored_at : ℕ
  pub first_random : Option (List ℕ)
  pub second_random : Option (List ℕ)

pub record Started : Type 0 where
  pub device_code : String
  pub user_code : String
  pub verification_uri : String
  pub verification_uri_complete : String
  pub expires_in : ℕ
  pub interval : ℕ

pub record ShownDevice : Type 0 where
  pub id : String
  pub name : String
  pub online : Bool
  pub last_seen_at : Option ℕ
  pub created_at : ℕ

pub data Body : Type 0 where
  failure : String → String → Body
  text : String → Body
  started : Started → Body
  approved connected empty_ : Body
  issued : String → String → Body
  devices : List ShownDevice → Body
  page : String → Body

pub record Response : Type 0 where
  pub status : ℕ
  pub allow_origin : Option String
  pub retry_after : Option ℕ
  pub body : Body

abbrev pub reply : ℕ → Body → Response
reply status body = record { status = status; allow_origin = none; retry_after = none; body = body }

-- writeError
abbrev pub write_error : ℕ → String → String → Response
write_error status code message = reply status (failure code message)

abbrev pub retry : ℕ → Response → Response
retry seconds r = record r { retry_after = some seconds }

abbrev pub second : ℕ
second = 1000000000

-- newIPLimiter(0.2, 5): a token is five parts for each nanosecond of a second.
abbrev pub pair_rate : Rate
pair_rate = record { one = 5 * second; burst = 25 * second; rate = 1 }

-- newIPLimiter(1, 10)
abbrev pub token_rate : Rate
token_rate = record { one = second; burst = 10 * second; rate = 1 }

-- namespace + "\x00" + host
abbrev pub limit_key : String → String → String
limit_key space host = String.◌++◌ space (String.◌++◌ "\0" host)

-- allow, and what the handler does in either case.
abbrev pub limit_pairs :
    String → Request → Control → Response → (Control → Response × Control) → Response × Control
limit_pairs space r s busy next =
    let (free, buckets) = allow pair_rate r.limited_at (limit_key space r.host) s.pair_buckets in
    let s' = record s { pair_buckets = buckets } in if free then next s' else (busy, s')

abbrev pub too_many : Response
too_many = retry 5 (write_error 429 "rate_limited" "too many pairing attempts")

-- The answer of decodeJSON to a body that it refuses.
abbrev pub bad_json : Response
bad_json = write_error 400 "invalid_json" "invalid request body"

abbrev pub with_random :
    {A : Type 0} → String → Option A → Control → (A → Response × Control) → Response × Control
with_random message none s next = (write_error 500 "internal_error" message, s)
with_random message (some bytes) s next = next bytes

-- requireUser: the identity that the request carries, or the refusal.
abbrev pub identified : Env → Request → Option (List ℕ) → Result Response Identity
identified env r none = err (write_error 401 "unauthorized" "missing bearer token")
identified env r (some token) = elim (require (env.verifier r.now) token "orc:tools") [
  | err Auth.Error.scope ↦ err (write_error 403 "unauthorized" "access denied")
  | err _ ↦ err (write_error 401 "unauthorized" "access denied")
  | ok identity ↦ ok identity
]

abbrev pub require_user :
    Env → Request → Option (List ℕ) → Control → (Identity → Response × Control) → Response × Control
require_user env r token s next = elim (identified env r token) [
  | err refused ↦ (refused, s)
  | ok identity ↦ next identity
]

-- http.Error
abbrev pub http_error : ℕ → String → Response
http_error status message = reply status (text message)
