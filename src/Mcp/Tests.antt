-- ===== src/Mcp/Tests.antt =====
-- A server with one device, requests to it, and the theorems there.
use open_remote_commander.Prelude.{
  ◌≡◌, ◌↔◌, ◌⊎◌, refl, String, Bool, true, false, [], ◌∷◌, none, some, ok, err, length, lookup,
  delete, trim_space, str_eq, if◌then◌else◌, is_some, has_prefix,
}
use open_remote_commander.Prelude.Int.{pos}
use open_remote_commander.Auth.{Identity, require, contains, invalid_token}
use open_remote_commander.Store.{Device}
use open_remote_commander.Store.Memory.{Memory, new_memory, get_device}
use open_remote_commander.Relay.{new_hub, answered}
use open_remote_commander.Executor.Tools.{handler_of}
use open_remote_commander.Mcp.Headers.{RpcRequest, Json, ProtocolHeaders, validate_headers}
use open_remote_commander.Mcp.Tools.{tool_specs, remote_from, known_remote_tool, remote_tool_set}
use open_remote_commander.Mcp.Versions.{Follows, validate_headers_iff}
use open_remote_commander.Mcp.Known.{known_remote_tool_iff}
use open_remote_commander.Mcp.Dispatched.{Sound, Quiet, IsServed, serve_lem}
use open_remote_commander.Mcp.{
  Server, HttpRequest, reply, unauthorized, tool_value, plain_ok, memory_storage,
}
use open_remote_commander.Mcp.Served.{serve}

abbrev laptop : Device
laptop = record {
  id = "dev_1";
  owner_subject = "alice";
  name = "laptop";
  created_at = 1;
  last_seen_at = none;
  revoked_at = none;
  online = false;
}

abbrev memory : Memory
memory = record new_memory {
  devices = ("dev_1", record { device = laptop; token_hash = "h" }) ∷ [];
}

abbrev ping_call : RpcRequest
ping_call = record { jsonrpc = "2.0"; id = "7"; method = "tools/call"; params = "ping dev_1" }

-- JSON as far as the requests here go.
abbrev json : Json
json = record {
  request = λ body. some ping_call;
  meta_version = λ params. "";
  wanted_version = λ params. "";
  tool_name = λ params. "ping";
  call = λ params. some ("ping", ("device_id", "dev_1") ∷ []);
  text = λ raw. raw;
  is_valid = λ raw. not_bad raw;
}
  where
    not_bad : String → Bool
    not_bad raw = if str_eq raw "{" then false else true

abbrev alice : Identity
alice = record { subject = "alice"; scopes = "orc:tools" ∷ []; expiry = pos 9 }

abbrev server : Server
server = record {
  storage = memory_storage memory;
  hub = new_hub 1;
  verifier = λ token. elim token [ [] ↦ err invalid_token | _ ∷ _ ↦ ok alice ];
  lower = λ text. text;
  json = json;
  call = λ subject device tool payload. answered "null" none;
  elapsed = 5;
}

abbrev no_headers : ProtocolHeaders
no_headers = record { protocol_version = ""; mcp_method = ""; mcp_name = "ping" }

abbrev request : HttpRequest
request = record {
  method = "POST";
  content_type = "application/json";
  token = some (1 ∷ []);
  headers = no_headers;
  body = some [];
}

answered_ping : (serve server request).response ≡ reply 200 "7" (tool_value false plain_ok)
unfolding serve require contains get_device lookup delete trim_space has_prefix known_remote_tool
    tool_specs remote_from
answered_ping = refl

-- A device that answers with no JSON: the call was made, and no audit event tells of it.
unrecorded :
    let o =
      serve (record server { call = λ subject device tool payload. answered "{" none }) request in
    (length o.dispatched ≡ 1) × (o.audited ≡ [])
unfolding serve require contains get_device lookup delete trim_space has_prefix known_remote_tool
    tool_specs remote_from
unrecorded = (refl, refl)

without_token :
    serve server (record request { token = none })
    ≡ record { response = unauthorized; dispatched = []; audited = [] }
unfolding serve has_prefix
without_token = refl

serve_lem_example :
    Quiet (serve server request)
    ⊎ ((identity : Identity) × IsServed server request identity
        × Sound server identity.subject (serve server request))
serve_lem_example = serve_lem server request

validate_headers_iff_example :
    (validate_headers json no_headers ping_call ≡ ok false)
    ↔ Follows json no_headers ping_call false
validate_headers_iff_example = validate_headers_iff json no_headers ping_call false

known_remote_tool_iff_example : known_remote_tool "edit_block" ≡ is_some (handler_of "edit_block")
known_remote_tool_iff_example = known_remote_tool_iff "edit_block"

-- No name of the table is empty or there twice, so that building the set does not panic.
set_of_22 : is_some remote_tool_set ≡ true
unfolding tool_specs remote_from
set_of_22 = refl
