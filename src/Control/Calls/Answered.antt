-- ===== src/Control/Calls/Answered.antt =====
-- The routes of internal/controlplane/http.go make one call of the store at most.
use open_remote_commander.Prelude.{ℕ, ◌≡◌, refl, ap}
use open_remote_commander.Store.Memory.{Memory}
use open_remote_commander.Control
use open_remote_commander.Control.{
  Body, issued, too_many, retry, http_error, Env, Control, Route, AgentRequest, Request, Response,
  limit_pairs, limit_key, pair_rate, token_rate, require_user, starts, lists, asks_options,
  connects, shows_page, submits_form,
}
use open_remote_commander.Control.Pairing.{
  start_pairing, approve_decoded, approve_pairing_of, consume_pairing_of, slow_down,
  pair_approve_form, start_decoded, consume_decoded, form_parsed,
}
use open_remote_commander.Control.Devices.{list_devices_of, revoke_device_of}
use open_remote_commander.Control.Routes.{answer, handle}
use open_remote_commander.Control.Calls.{typed_code, carried, typed_code, Rule}
use open_remote_commander.Control.Calls.Wrapped.{
  cors_lem, limit_pairs_lem, limit_tokens_lem, require_user_lem, options_lem,
}
use open_remote_commander.Control.Calls.Handled.{
  start_decoded_lem, approve_decoded_lem, consume_decoded_lem, revoke_lem, connect_lem,
  form_parsed_lem,
}

module _ (env : Env) (r : Request) (P : ℕ → Body → Memory → Type 0) where
  answer_lem : (q : Route) → r.route ≡ q → Rule env r P (answer env r q)
  unfolding answer start_pairing approve_pairing_of consume_pairing_of pair_approve_form
      list_devices_of
  answer_lem (starts body) at = cors_lem env r P (start_pairing env r body) (
      limit_pairs_lem env r P "pair-start" too_many (start_decoded env r body)
        (start_decoded_lem env r P body))
  answer_lem (Control.approves token body) at =
      cors_lem env r P
        (λ s. require_user env r token s λ identity. approve_pairing_of env r body identity s)
        (require_user_lem env r P token (approve_pairing_of env r body) (ap carried at)
          λ identity grants.
            limit_pairs_lem env r P "pair-approve" too_many (approve_decoded env r body identity)
              (approve_decoded_lem env r P body identity grants (ap typed_code at)))
  answer_lem (Control.consumes body) at = cors_lem env r P (consume_pairing_of env r body) (
      limit_tokens_lem env r P slow_down (consume_decoded env r body)
        (consume_decoded_lem env r P body at))
  answer_lem (lists token) at =
      cors_lem env r P (λ s. require_user env r token s λ identity. list_devices_of identity s)
        (require_user_lem env r P token list_devices_of (ap carried at)
          λ identity grants s same made. same _ _)
  answer_lem (Control.revokes token id) at =
      cors_lem env r P
        (λ s. require_user env r token s λ identity. revoke_device_of r id identity s)
        (require_user_lem env r P token (revoke_device_of r id) (ap carried at)
          (revoke_lem env r P id))
  answer_lem asks_options at = options_lem env r P
  answer_lem (connects a) at = connect_lem env r P a
  answer_lem (shows_page code) at = λ s same made. same _ _
  answer_lem (submits_form form) at =
      limit_pairs_lem env r P "pair-form-approve" (retry 5 (http_error 429 "too many attempts"))
        (form_parsed env r form) (form_parsed_lem env r P form at)

  -- The rule for every request.
  pub handle_lem : Rule env r P (handle env r)
  unfolding handle
  handle_lem = answer_lem r.route refl
