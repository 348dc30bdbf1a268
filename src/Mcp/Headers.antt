-- ===== src/Mcp/Headers.antt =====
-- validateProtocolHeaders of internal/mcpserver/server.go.
use open_remote_commander.Prelude.{
  ℕ, String, Bool, not, ◌&&◌, ◌||◌, List, Option, Map, Result, ok, ◌>>◌, fail_if, str_eq,
  if◌then◌else◌, trim_space,
}

-- A request of JSON-RPC; `id` and `params` are JSON texts, "" where there is none.
pub record RpcRequest : Type 0 where
  pub jsonrpc : String
  pub id : String
  pub method : String
  pub params : String

-- What encoding/json makes of the texts: "" for a text that is absent or no string.
pub record Json : Type 0 where
  pub request : List ℕ → Option RpcRequest
  pub meta_version : String → String
  pub wanted_version : String → String
  pub tool_name : String → String
  pub call : String → Option (String × Map String)
  pub text : String → String
  pub is_valid : String → Bool

-- The three headers of the protocol.
pub record ProtocolHeaders : Type 0 where
  pub protocol_version : String
  pub mcp_method : String
  pub mcp_name : String

abbrev pub modern_version : String
modern_version = "2026-07-28"

abbrev pub legacy_version : String
legacy_version = "2025-11-25"

abbrev pub is_absent : String → Bool
is_absent s = str_eq s "" || str_eq s "null"

abbrev pub meta_version_of : Json → RpcRequest → String
meta_version_of json req = if is_absent req.params then "" else json.meta_version req.params

-- A header that is given and is not what it should be.
abbrev pub differs : String → String → Bool
differs given wanted = not (str_eq given "") && not (str_eq given wanted)

abbrev pub is_modern : String → String → String → Bool
is_modern method header meta =
    str_eq method "server/discover" || str_eq header modern_version || str_eq meta modern_version

unfoldable pub validate_headers : Json → ProtocolHeaders → RpcRequest → Result String Bool
unfolding trim_space
validate_headers json h req = do
  let header = trim_space h.protocol_version
  let meta = meta_version_of json req
  let modern = is_modern req.method header meta
  let strict = modern && not (str_eq req.method "server/discover")
  fail_if (differs header modern_version && not (str_eq header legacy_version))
      "unsupported protocol version"
  fail_if (strict && str_eq header "") "MCP-Protocol-Version header is required for modern requests"
  fail_if (strict && str_eq meta "")
      "modern requests require _meta io.modelcontextprotocol/protocolVersion"
  fail_if (strict && not (str_eq header meta))
      "protocol version header does not match request metadata"
  fail_if (differs (trim_space h.mcp_method) req.method) "Mcp-Method does not match request method"
  fail_if
      (str_eq req.method "tools/call"
        && differs (trim_space h.mcp_name) (json.tool_name req.params))
      "Mcp-Name does not match tool"
  ok modern
