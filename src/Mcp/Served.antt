-- ===== src/Mcp/Served.antt =====
-- `serveHTTP` and `identity` of internal/mcpserver/server.go.
use open_remote_commander.Prelude.{
  ℕ, String, Bool, not, ◌||◌, List, Option, none, some, ok, err, str_eq, if◌then◌else◌, has_prefix,
}
use open_remote_commander.Auth.{Identity, require}
use open_remote_commander.Mcp.Headers.{
  RpcRequest, Json, ProtocolHeaders, modern_version, legacy_version, is_absent, validate_headers,
}
use open_remote_commander.Mcp.{
  HttpRequest, Outcome, Server, call_tool, discovered, initialized, pong, refused, replied, reply,
  status_only, tools, unauthorized,
}

abbrev pub version_of : Json → String → String
version_of json params =
    if str_eq (json.wanted_version params) modern_version then modern_version else legacy_version

-- The switch over the method.
abbrev pub answer : Server → RpcRequest → Identity → Bool → Outcome
answer s req identity modern =
    if str_eq req.method "server/discover"
    then replied (reply 200 req.id discovered)
    else if str_eq req.method "initialize"
    then replied (reply 200 req.id (initialized (version_of s.json req.params)))
    else if str_eq req.method "ping"
    then replied (reply 200 req.id (pong modern))
    else if str_eq req.method "tools/list"
    then replied (reply 200 req.id (tools modern))
    else if str_eq req.method "tools/call"
    then call_tool s req identity modern
    else refused 404 req.id "-32601" "method not found"

-- What is done with a request once it is read, for an identity.
unfoldable pub serve_rpc : Server → ProtocolHeaders → Identity → RpcRequest → Outcome
unfolding validate_headers call_tool
serve_rpc s headers identity req =
    if not (str_eq req.jsonrpc "2.0") || str_eq req.method ""
    then refused 400 req.id "-32600" "invalid request"
    else elim (validate_headers s.json headers req) [
      | err message ↦ refused 400 req.id "-32020" message
      | ok modern ↦
          if is_absent req.id then replied (status_only 202) else answer s req identity modern
    ]

-- identity
abbrev pub identity_of : Server → Option (List ℕ) → Option Identity
identity_of s none = none
identity_of s (some token) = elim (require s.verifier token "orc:tools") [
  | err e ↦ none
  | ok id ↦ some id
]

abbrev pub serve_body : Server → ProtocolHeaders → Identity → Option (List ℕ) → Outcome
serve_body s headers identity none = refused 413 "" "-32600" "request too large"
serve_body s headers identity (some body) = elim (s.json.request body) [
  | none ↦ refused 400 "" "-32700" "parse error"
  | some req ↦ serve_rpc s headers identity req
]

unfoldable pub serve : Server → HttpRequest → Outcome
unfolding serve_rpc
serve s r =
    if not (str_eq r.method "POST")
    then replied (status_only 405)
    else if not (has_prefix (s.lower r.content_type) "application/json")
    then replied (status_only 415)
    else elim (identity_of s r.token) [
      | none ↦ replied unauthorized
      | some identity ↦ serve_body s r.headers identity r.body
    ]
