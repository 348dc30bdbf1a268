-- ===== src/Config.antt =====
-- internal/config/config.go: `LoadServer` and `LoadAgent` as functions of the environment. A Go int is
-- an ℤ; a duration is its nanoseconds.

pub mod Agents
pub mod Safe
mod Tests
use open_remote_commander.Prelude.{
  ℕ, ◌*◌, String, Bool, true, false, not, ◌&&◌, ◌||◌, List, [], ◌∷◌, Option, none, some, Result, ok,
  err, ◌>>=◌, ◌>>◌, fail_if, or_fail, len, ltb, ◌==◌, str_eq, if◌then◌else◌, trim_space,
}
use Prim.Native.Char.{Char, code}
use Prim.Native.String
use open_remote_commander.Prelude.Int.{ℤ, pos, ltb_ℤ}
use open_remote_commander.Control.Codes.{trim_slashes}

-- What url.Parse finds.
pub record Url : Type 0 where
  pub scheme : String
  pub host : String
  pub hostname : String

-- The environment and the packages that read it: `getenv` is "" for a missing name, `is_loopback_ip` is
-- net.ParseIP and IsLoopback, `split_host` the host of net.SplitHostPort, `separator` the character of
-- os.PathListSeparator.
pub record Library : Type 0 where
  pub getenv : String → String
  pub parse_url : String → Option Url
  pub equal_fold : String → String → Bool
  pub is_loopback_ip : String → Bool
  pub split_host : String → Option String
  pub atoi : String → Option ℤ
  pub parse_duration : String → Option ℤ
  pub lower : String → String
  pub home : Option String
  pub absolute : String → Option String
  pub host_name : Option String
  pub separator : ℕ
  pub on_windows : Bool

pub record Server : Type 0 where
  pub listen_addr : String
  pub public_base_url : String
  pub auth_mode : String
  pub auth_audience : String
  pub auth_issuer : String
  pub hmac_secret : String
  pub pairing_secret : String
  pub introspection_url : String
  pub introspection_id : String
  pub introspection_secret : String
  pub database_url : String
  pub neon_http_endpoint : String
  pub allowed_origins : List String
  pub max_in_flight_per_device : ℤ
  pub mcp_trust_loopback : Bool
  pub mcp_trusted_subject : String

pub record Agent : Type 0 where
  pub server_url : String
  pub device_id : String
  pub agent_token : String
  pub device_name : String
  pub allowed_roots : List String
  pub max_processes : ℤ
  pub max_process_bytes : ℤ
  pub max_runtime : ℤ
  pub allow_shell : Bool
  pub allow_kill_process : Bool

abbrev pub env : Library → String → String → String
env l k fallback = let v = trim_space (l.getenv k) in if str_eq v "" then fallback else v

-- strconv.Atoi or time.ParseDuration, with the fallback where there is nothing to read.
abbrev pub or_fallback : ℤ → Option ℤ → ℤ
or_fallback fallback none = fallback
or_fallback fallback (some n) = n

abbrev pub env_int : Library → String → ℤ → ℤ
env_int l k fallback =
    let v = trim_space (l.getenv k) in
    if str_eq v "" then fallback else or_fallback fallback (l.atoi v)

abbrev pub env_duration : Library → String → ℤ → ℤ
env_duration l k fallback =
    let v = trim_space (l.getenv k) in
    if str_eq v "" then fallback else or_fallback fallback (l.parse_duration v)

unfoldable pub env_bool : Library → String → Bool → Bool
env_bool l k fallback =
    let v = trim_space (l.lower (l.getenv k)) in
    if str_eq v "1" || str_eq v "true" || str_eq v "yes" || str_eq v "on"
    then true
    else if str_eq v "0" || str_eq v "false" || str_eq v "no" || str_eq v "off"
    then false
    else fallback

abbrev pub onto_first : Char → List String → List String
onto_first c [] = String.◌∷◌ c String.[] ∷ []
onto_first c (p ∷ ps) = String.◌∷◌ c p ∷ ps

-- strings.Split at a character given by its code.
unfoldable pub split : ℕ → String → List String
split n String.[] = "" ∷ []
split n (String.◌∷◌ c s) =
    let rest = split n s in if code c == n then "" ∷ rest else onto_first c rest

-- if p = strings.TrimSpace(p); p != "" { out = append(out, p) }
unfoldable pub trimmed : List String → List String
trimmed [] = []
trimmed (p ∷ ps) =
    let rest = trimmed ps in let t = trim_space p in if str_eq t "" then rest else t ∷ rest

abbrev pub split_csv : String → List String
split_csv v = trimmed (split 44 v)

-- strings.Contains(v, c)
unfoldable pub has_char : ℕ → String → Bool
has_char n String.[] = false
has_char n (String.◌∷◌ c s) = code c == n || has_char n s

unfoldable pub split_path_list : Library → String → List String
split_path_list l v =
    if str_eq (trim_space v) ""
    then []
    else if l.on_windows && has_char 44 v && not (has_char l.separator v)
    then trimmed (split 44 v)
    else trimmed (split l.separator v)

abbrev pub is_loopback : Library → String → Bool
is_loopback l host = l.equal_fold host "localhost" || l.is_loopback_ip host

abbrev pub hostname_of : Option String → String
hostname_of none = "unnamed-device"
hostname_of (some h) = if str_eq h "" then "unnamed-device" else h

-- The values that the environment gives, before they are checked.
abbrev pub server_of : Library → Server
server_of l = record {
  listen_addr = env l "ORC_LISTEN_ADDR" "127.0.0.1:8080";
  public_base_url = trim_slashes (env l "ORC_PUBLIC_BASE_URL" "http://127.0.0.1:8080");
  auth_mode = env l "ORC_AUTH_MODE" "dev";
  auth_audience = env l "ORC_AUTH_AUDIENCE" "http://127.0.0.1:8080/mcp";
  auth_issuer = trim_slashes (l.getenv "ORC_AUTH_ISSUER");
  hmac_secret = l.getenv "ORC_HMAC_SECRET";
  pairing_secret = l.getenv "ORC_PAIRING_SECRET";
  introspection_url = l.getenv "ORC_INTROSPECTION_URL";
  introspection_id = l.getenv "ORC_INTROSPECTION_CLIENT_ID";
  introspection_secret = l.getenv "ORC_INTROSPECTION_CLIENT_SECRET";
  database_url = l.getenv "DATABASE_URL";
  neon_http_endpoint = l.getenv "ORC_NEON_HTTP_ENDPOINT";
  allowed_origins = split_csv (l.getenv "ORC_ALLOWED_ORIGINS");
  max_in_flight_per_device = env_int l "ORC_MAX_IN_FLIGHT_PER_DEVICE" (pos 16);
  mcp_trust_loopback = env_bool l "ORC_MCP_TRUST_LOOPBACK" false;
  mcp_trusted_subject = trim_space (l.getenv "ORC_MCP_TRUSTED_SUBJECT");
}

-- u, err := url.Parse(base): the address of a server, over https unless it is this machine.
unfoldable pub check_url : Library → String → String → String → Result String (Unit {0})
check_url l base invalid insecure = do
  u ← or_fail (l.parse_url base) invalid
  fail_if (str_eq u.host "") invalid
  fail_if
      (not (str_eq u.scheme "https")
        && (not (str_eq u.scheme "http") || not (is_loopback l u.hostname)))
      insecure

abbrev pub loopback_wanted : String
loopback_wanted = "ORC_MCP_TRUST_LOOPBACK requires an explicit loopback ORC_LISTEN_ADDR"

unfoldable pub check_trusted : Library → Server → Result String (Unit {0})
check_trusted l c = do
  fail_if (str_eq c.mcp_trusted_subject "")
      "ORC_MCP_TRUSTED_SUBJECT is required when ORC_MCP_TRUST_LOOPBACK=true"
  host ← or_fail (l.split_host c.listen_addr) loopback_wanted
  fail_if (not (is_loopback l host)) loopback_wanted

unfoldable pub check_trust : Library → Server → Result String (Unit {0})
unfolding check_trusted
check_trust l c = if c.mcp_trust_loopback then check_trusted l c else ok tt

abbrev pub https_wanted : String
https_wanted = "ORC_INTROSPECTION_URL must be an https URL"

unfoldable pub check_introspection : Library → Server → Result String (Unit {0})
check_introspection l c = do
  u ← or_fail (l.parse_url c.introspection_url) https_wanted
  fail_if (not (str_eq u.scheme "https") || str_eq u.host "") https_wanted
  fail_if (str_eq c.auth_issuer "") "ORC_AUTH_ISSUER is required in introspection mode"

unfoldable pub check_auth : Library → Server → Result String (Unit {0})
unfolding check_introspection
check_auth l c =
    if str_eq c.auth_mode "dev"
    then fail_if (ltb (len c.hmac_secret) 32)
        "ORC_HMAC_SECRET must be at least 32 bytes in dev auth mode"
    else if str_eq c.auth_mode "introspection"
    then check_introspection l c
    else err "unsupported ORC_AUTH_MODE"

-- LoadServer, from the values on.
unfoldable pub checked_server : Library → Server → Result String Server
unfolding check_url check_trust check_auth
checked_server l c = do
  fail_if (str_eq c.listen_addr "") "listen address is required"
  check_url l c.public_base_url "invalid ORC_PUBLIC_BASE_URL"
      "ORC_PUBLIC_BASE_URL must use https outside loopback"
  fail_if (ltb_ℤ c.max_in_flight_per_device (pos 1) || ltb_ℤ (pos 128) c.max_in_flight_per_device)
      "ORC_MAX_IN_FLIGHT_PER_DEVICE must be between 1 and 128"
  fail_if (ltb (len c.pairing_secret) 32) "ORC_PAIRING_SECRET must be at least 32 bytes"
  check_trust l c
  check_auth l c
  ok c

unfoldable pub load_server : Library → Result String Server
unfolding checked_server env_bool
load_server l = checked_server l (server_of l)
