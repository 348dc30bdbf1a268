-- ===== src/Control/Routes.antt =====
-- `Register`, `cors`, `options` and `pairPage` of internal/controlplane/http.go: what answers a request,
-- and requests one after the other.
use open_remote_commander.Prelude.{
  String, Bool, false, ◌||◌, List, [], ◌∷◌, some, str_eq, if◌then◌else◌, trim_space,
}
use open_remote_commander.Control.Codes.{trim_slashes}
use open_remote_commander.Control.Pairing.{
  start_pairing, approve_pairing_of, consume_pairing_of, pair_approve_form,
}
use open_remote_commander.Control.Devices.{list_devices_of, revoke_device_of, agent_connect}
use open_remote_commander.Control.{
  Env, Control, starts, approves, consumes, lists, revokes, asks_options, connects, shows_page,
  submits_form, Request, Route, empty_, page, Response, reply, write_error, require_user,
}

-- h.allowedOrigins[origin]
unfoldable pub is_allowed : String → List String → Bool
is_allowed origin [] = false
is_allowed origin (o ∷ os) = str_eq (trim_slashes o) origin || is_allowed origin os

abbrev pub origin_of : Request → String
origin_of r = trim_slashes (trim_space r.origin)

abbrev pub foreign : Response
foreign = write_error 403 "forbidden" "origin not allowed"

abbrev pub with_origin : String → Response → Response
with_origin origin response = record response { allow_origin = some origin }

unfoldable pub cors : Env → Request → Control → Response × Control → Response × Control
unfolding is_allowed
cors env r s next =
    let origin = origin_of r in
    if str_eq origin ""
    then next
    else if is_allowed origin env.origins
    then (with_origin origin next.0, next.1)
    else (foreign, s)

unfoldable pub options : Env → Request → Control → Response × Control
unfolding is_allowed
options env r s =
    let origin = origin_of r in
    if str_eq origin ""
    then (reply 204 empty_, s)
    else if is_allowed origin env.origins
    then (with_origin origin (reply 204 empty_), s)
    else (foreign, s)

-- Register: each route with its handler and what is wrapped around it.
unfoldable pub answer : Env → Request → Route → Control → Response × Control
unfolding start_pairing approve_pairing_of consume_pairing_of list_devices_of revoke_device_of
    agent_connect pair_approve_form cors options
answer env r (starts body) s = cors env r s (start_pairing env r body s)
answer env r (approves token body) s =
    cors env r s (require_user env r token s λ identity. approve_pairing_of env r body identity s)
answer env r (consumes body) s = cors env r s (consume_pairing_of env r body s)
answer env r (lists token) s =
    cors env r s (require_user env r token s λ identity. list_devices_of identity s)
answer env r (revokes token id) s =
    cors env r s (require_user env r token s λ identity. revoke_device_of r id identity s)
answer env r asks_options s = options env r s
answer env r (connects a) s = agent_connect env r a s
answer env r (shows_page code) s = (reply 200 (page code), s)
answer env r (submits_form form) s = pair_approve_form env r form s

unfoldable pub handle : Env → Request → Control → Response × Control
unfolding answer
handle env r s = answer env r r.route s

-- One request after the other, and the state that they leave.
unfoldable pub serve_all : Env → List Request → Control → Control
unfolding handle
serve_all env [] s = s
serve_all env (r ∷ rs) s = serve_all env rs (handle env r s).1
