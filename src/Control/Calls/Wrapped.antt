-- ===== src/Control/Calls/Wrapped.antt =====
-- What is wrapped around the handlers of internal/controlplane/http.go keeps the store as it is.
use open_remote_commander.Prelude.{
  ℕ, ◌≡◌, refl, inl, inr, String, List, Option, none, some, Bool-cases, Result-cases, str_eq,
}
use open_remote_commander.Auth
use open_remote_commander.Auth.{Identity, require}
use open_remote_commander.Store.Memory.{Memory}
use open_remote_commander.Limiter.{allow}
use open_remote_commander.Control.{
  Body, Env, Control, Request, Response, limit_pairs, limit_key, pair_rate, token_rate,
  require_user,
}
use open_remote_commander.Control.Pairing.{limit_tokens}
use open_remote_commander.Control.Routes.{options, origin_of, is_allowed, cors}
use open_remote_commander.Control.Calls.{carried, Grants, Rule}

module _ (env : Env) (r : Request) (P : ℕ → Body → Memory → Type 0) where
  pub limit_pairs_lem :
      (space : String) (busy : Response) (next : Control → Response × Control)
      → Rule env r P next
      → Rule env r P (λ s. limit_pairs space r s busy next)
  limit_pairs_lem space busy next rule s same made =
      let got = allow pair_rate r.limited_at (limit_key space r.host) s.pair_buckets in
      elim (Bool-cases got.0) [
        | inl is ↦ rw is (rule (record s { pair_buckets = got.1 }) same made)
        | inr no_ ↦ rw no_ (same _ _)
      ]

  pub limit_tokens_lem :
      (busy : Response) (next : Control → Response × Control)
      → Rule env r P next
      → Rule env r P (λ s. limit_tokens r s busy next)
  limit_tokens_lem busy next rule s same made =
      let got = allow token_rate r.limited_at (limit_key "pair-token" r.host) s.token_buckets in
      elim (Bool-cases got.0) [
        | inl is ↦ rw is (rule (record s { token_buckets = got.1 }) same made)
        | inr no_ ↦ rw no_ (same _ _)
      ]

  pub cors_lem :
      (next : Control → Response × Control)
      → Rule env r P next
      → Rule env r P (λ s. cors env r s (next s))
  unfolding cors
  cors_lem next rule s same made = elim (Bool-cases (str_eq (origin_of r) "")) [
    | inl none_ ↦ rw none_ (rule s same made)
    | inr given ↦ elim (Bool-cases (is_allowed (origin_of r) env.origins)) [
      | inl known ↦ rw (given, known) (rule s same made)
      | inr foreign ↦ rw (given, foreign) (same _ _)
    ]
  ]

  pub options_lem : Rule env r P (options env r)
  unfolding options
  options_lem s same made = elim (Bool-cases (str_eq (origin_of r) "")) [
    | inl none_ ↦ rw none_ (same _ _)
    | inr given ↦ elim (Bool-cases (is_allowed (origin_of r) env.origins)) [
      | inl known ↦ rw (given, known) (same _ _)
      | inr foreign ↦ rw (given, foreign) (same _ _)
    ]
  ]

  pub require_user_lem :
      (token : Option (List ℕ)) (next : Identity → Control → Response × Control)
      → carried r.route ≡ token
      → ((identity : Identity) → Grants env r identity.subject → Rule env r P (next identity))
      → Rule env r P (λ s. require_user env r token s λ identity. next identity s)
  require_user_lem none next at rule s same made = same _ _
  require_user_lem (some token) next at rule s same made =
      elim (Result-cases (require (env.verifier r.now) token "orc:tools")) [
        | inr (Auth.Error.scope, bad) ↦ rw (bad, require_user) (same _ _)
        | inr (Auth.Error.invalid_token, bad) ↦ rw (bad, require_user) (same _ _)
        | inr (Auth.Error.unreachable, bad) ↦ rw (bad, require_user) (same _ _)
        | inr (Auth.Error.failed message, bad) ↦ rw (bad, require_user) (same _ _)
        | inl (identity, good) ↦
            rw (good, require_user)
              (rule identity
                (record {
                  token = token;
                  identity = identity;
                  is_carried = at;
                  accepted = good;
                  is_subject = refl;
                })
                s same made)
      ]
