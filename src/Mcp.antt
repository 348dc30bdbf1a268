-- ===== src/Mcp.antt =====
-- internal/mcpserver/server.go: `callTool` and `toolResult`. An answer is a value of its own, and beside
-- it stand the calls that were made of the hub and the audit events that were recorded. `lower` is
-- strings.ToLower; `call` is what Hub.Call returns.
pub mod Served
pub mod Tools
pub mod Headers
pub mod Dispatched
pub mod Versions
pub mod Known
pub mod Tests
use open_remote_commander.Prelude.{
  ℕ, String, Bool, true, false, not, ◌&&◌, ◌||◌, List, [], ◌∷◌, Option, none, some, Map, Result, ok,
  err, ◌>>=◌, ◌>>◌, fail_if, str_eq, if◌then◌else◌, lookup, delete, trim_space, has_prefix,
}
use Prim.Native.String
use open_remote_commander.Auth
use open_remote_commander.Auth.{Identity, require}
use open_remote_commander.Store
use open_remote_commander.Store.{Device, AuditEvent}
use open_remote_commander.Store.Memory.{Memory, list_devices, get_device}
use open_remote_commander.Relay
use open_remote_commander.Relay.{
  Hub, is_online, Answer, answered, broken, offline, context, RemoteError,
}
use open_remote_commander.Mcp.Headers.{
  RpcRequest, Json, ProtocolHeaders, modern_version, legacy_version, is_absent, validate_headers,
}
use open_remote_commander.Mcp.Tools.{known_remote_tool}

-- The two methods of the interface store.Store that the server calls.
pub record Storage : Type 0 where
  pub list : String → Result Store.Error (List Device)
  pub get : String → String → Result Store.Error Device

-- The in-memory store behind that interface.
abbrev pub memory_storage : Memory → Storage
memory_storage m = record {
  list = λ owner. ok (list_devices owner m);
  get = λ owner id. get_device owner id m;
}

pub record Server : Type 0 where
  pub storage : Storage
  pub hub : Hub
  pub verifier : List ℕ → Result Auth.Error Identity
  pub lower : String → String
  pub json : Json
  pub call : String → String → String → Map String → Answer
  pub elapsed : ℕ

-- `token` is what authn.BearerToken finds, `body` is none where it is too large to be read.
pub record HttpRequest : Type 0 where
  pub method : String
  pub content_type : String
  pub token : Option (List ℕ)
  pub headers : ProtocolHeaders
  pub body : Option (List ℕ)

pub data Value : Type 0 where
  devices : List Device → Value
  json_text : String → Value
  plain_ok : Value

pub data Body : Type 0 where
  rpc_error : String → String → Body
  discovered : Body
  initialized : String → Body
  pong : Bool → Body
  tools : Bool → Body
  tool_value : Bool → Value → Body
  tool_error : Bool → String → Body

pub data Response : Type 0 where
  status_only : ℕ → Response
  unauthorized : Response
  reply : ℕ → String → Body → Response

pub record Dispatch : Type 0 where
  pub subject : String
  pub device_id : String
  pub tool : String
  pub payload : Map String

pub record Outcome : Type 0 where
  pub response : Response
  pub dispatched : List Dispatch
  pub audited : List AuditEvent

abbrev pub replied : Response → Outcome
replied response = record { response = response; dispatched = []; audited = [] }

abbrev pub refused : ℕ → String → String → String → Outcome
refused status id code message = replied (reply status id (rpc_error code message))

-- for i := range devices { devices[i].Online = s.hub.IsOnline(...) }
unfoldable pub with_online : Hub → String → List Device → List Device
with_online hub subject [] = []
with_online hub subject (d ∷ ds) =
    record d { online = is_online subject d.id hub } ∷ with_online hub subject ds

-- Every argument is JSON.
unfoldable pub all_valid : Json → Map String → Bool
all_valid json [] = true
all_valid json ((k, raw) ∷ args) = json.is_valid raw && all_valid json args

abbrev pub device_id_of : Json → Map String → String
device_id_of json args = elim (lookup "device_id" args) [
  | none ↦ ""
  | some raw ↦ if str_eq raw "" then "" else json.text raw
]

-- The status and the error code of the audit event for an error of Hub.Call.
abbrev pub status_of : Relay.Error → String × String
status_of Relay.Error.offline = ("offline", "device_offline")
status_of Relay.Error.context = ("timeout", "timeout")
status_of _ = ("error", "")

abbrev pub error_text : Relay.Error → String
error_text Relay.Error.offline = "device offline"
error_text Relay.Error.closed = "device connection closed"
error_text Relay.Error.context = "context done"
error_text (Relay.Error.failed message) = message

-- fmt.Errorf("%s: %s", res.Error.Code, res.Error.Message)
abbrev pub remote_text : RemoteError → String
remote_text e = String.◌++◌ e.code (String.◌++◌ ": " e.message)

abbrev pub event : Server → Dispatch → String → String → AuditEvent
event s d status code = record {
  owner_subject = d.subject;
  device_id = d.device_id;
  tool_name = d.tool;
  status = status;
  duration = s.elapsed;
  error_code = code;
}

-- What follows the return of Hub.Call.
unfoldable pub after_call : Server → String → Bool → Dispatch → Answer → Outcome
after_call s id modern d (broken e) = record {
  response = reply 200 id (tool_error modern (error_text e));
  dispatched = d ∷ [];
  audited = event s d (status_of e).0 (status_of e).1 ∷ [];
}
after_call s id modern d (answered value (some e)) = record {
  response = reply 200 id (tool_error modern (remote_text e));
  dispatched = d ∷ [];
  audited = event s d "error" e.code ∷ [];
}
after_call s id modern d (answered value none) =
    if is_absent value
    then record {
      response = reply 200 id (tool_value modern plain_ok);
      dispatched = d ∷ [];
      audited = event s d "ok" "" ∷ [];
    }
    else if s.json.is_valid value
    then record {
      response = reply 200 id (tool_value modern (json_text value));
      dispatched = d ∷ [];
      audited = event s d "ok" "" ∷ [];
    }
    else record {
      response = reply 200 id (tool_error modern "invalid response from device");
      dispatched = d ∷ [];
      audited = [];
    }

unfoldable pub call_remote : Server → String → Bool → String → String → Map String → Outcome
unfolding known_remote_tool after_call all_valid
call_remote s id modern subject name args =
    let device_id = device_id_of s.json args in
    let payload = delete "device_id" args in
    if not (known_remote_tool name)
    then refused 404 id "-32602" "unknown tool"
    else if str_eq (trim_space device_id) ""
    then refused 400 id "-32602" "device_id is required"
    else elim (s.storage.get subject device_id) [
      | err e ↦ replied (reply 200 id (tool_error modern "device offline or unavailable"))
      | ok device ↦
          if not (all_valid s.json payload)
          then refused 400 id "-32602" "invalid arguments"
          else (let d : Dispatch = record {
            subject = subject;
            device_id = device_id;
            tool = name;
            payload = payload;
          } in
              after_call s id modern d (s.call subject device_id name payload))
    ]

unfoldable pub call_tool : Server → RpcRequest → Identity → Bool → Outcome
unfolding call_remote with_online
call_tool s req identity modern = elim (s.json.call req.params) [
  | none ↦ refused 400 req.id "-32602" "invalid tool call parameters"
  | some p ↦
      if str_eq p.0 ""
      then refused 400 req.id "-32602" "invalid tool call parameters"
      else if str_eq p.0 "list_devices"
      then elim (s.storage.list identity.subject) [
        | err e ↦ refused 500 req.id "-32603" "internal error"
        | ok found ↦ replied (
            reply 200 req.id
              (tool_value modern (devices (with_online s.hub identity.subject found))))
      ]
      else call_remote s req.id modern identity.subject p.0 p.1
]
