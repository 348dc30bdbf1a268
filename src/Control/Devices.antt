-- ===== src/Control/Devices.antt =====
-- The handlers of devices in internal/controlplane/http.go: `listDevices`, `revokeDevice` and
-- `agentConnect`.
use open_remote_commander.Prelude.{
  String, Bool, not, none, some, Result, ok, err, map, str_eq, if◌then◌else◌, trim_space,
}
use open_remote_commander.Auth.{Identity}
use open_remote_commander.Store
use open_remote_commander.Store.{Device}
use open_remote_commander.Store.Memory.{
  Memory, list_devices, revoke_device, authenticate_device, touch_device,
}
use open_remote_commander.Relay.{Hub, is_online, disconnect, register}
use open_remote_commander.Control.{
  Env, Control, AgentRequest, Request, ShownDevice, text, connected, empty_, devices, Response,
  reply, write_error,
}

abbrev pub shown_device : Hub → String → Device → ShownDevice
shown_device hub subject d = record {
  id = d.id;
  name = d.name;
  online = is_online subject d.id hub;
  last_seen_at = d.last_seen_at;
  created_at = d.created_at;
}

-- ListDevices of the in-memory store gives no error.
unfoldable pub list_devices_of : Identity → Control → Response × Control
list_devices_of identity s =
    let found = list_devices identity.subject s.memory in
    (reply 200 (devices (map (shown_device s.hub identity.subject) found)), s)

abbrev pub revoked : String → Control → Result Store.Error (Unit {0}) × Memory → Response × Control
revoked id s (err _, m) = (write_error 404 "not_found" "device not found", record s { memory = m })
revoked id s (ok _, m) = (reply 204 empty_, record s { memory = m; hub = disconnect id s.hub })

unfoldable pub revoke_device_of : Request → String → Identity → Control → Response × Control
revoke_device_of r id identity s =
    if str_eq id ""
    then (write_error 400 "invalid_arguments" "device_id is required", s)
    else revoked id s (revoke_device r.stored_at identity.subject id s.memory)

abbrev pub bad_credentials : Response
bad_credentials = write_error 401 "unauthorized" "invalid device credentials"

-- The rest of agentConnect for a token. The answer to a failed upgrade is that of ws.Upgrade.
abbrev pub connect_with : Env → Request → String → Bool → String → Control → Response × Control
connect_with env r id upgraded token s =
    if not (str_eq (trim_space r.origin) "")
    then (write_error 403 "forbidden" "browser websocket origins are not accepted", s)
    else elim (authenticate_device env.hash id token s.memory) [
      | err e ↦ (bad_credentials, s)
      | ok d ↦
          if upgraded
          then (
            reply 101 connected,
            record s {
              memory = (touch_device r.stored_at d.id s.memory).1;
              hub = register d.id d.owner_subject s.hub;
            },
          )
          else (reply 400 (text "websocket upgrade failed"), s)
    ]

unfoldable pub agent_connect : Env → Request → AgentRequest → Control → Response × Control
agent_connect env r a s =
    let id = trim_space a.device_id in
    if str_eq id "" then (bad_credentials, s) else elim a.token [
      | none ↦ (bad_credentials, s)
      | some token ↦ connect_with env r id a.upgraded token s
    ]
