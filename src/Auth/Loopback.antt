-- ===== src/Auth/Loopback.antt =====
-- Require of internal/authn/authn.go and the trusted loopback of internal/authn/trusted.go.
use open_remote_commander.Prelude.{
  Option, none, Option-cases, ◌∙◌, ap, Bool, ◌&&◌, ℕ, ◌≡◌, ◌≢◌, refl, sym, subst, String, true,
  false, List, [], some, Result, ok, ok-injective, err-ne-ok, str_eq, eq_iff, Bool-cases,
  Result-cases, ◌⊎◌, inl, inr, ◌↔◌,
}
use open_remote_commander.Auth.{
  Error, Identity, has_scope, require, same_bytes, Trust, trust_verify, Incoming, middleware,
  bearer_token,
}
use open_remote_commander.Auth.Tokens.{same_bytes→eq}

-- Require gives an identity exactly where the verifier gives it, and it has the scope if one is
-- wanted.
pub require_iff :
    (verifier : List ℕ → Result Error Identity) (token : List ℕ) (wanted : String) (id : Identity)
    → (require verifier token wanted ≡ ok id)
      ↔ ((verifier token ≡ ok id) × ((wanted ≡ "") ⊎ (has_scope id wanted ≡ true)))
unfolding require
require_iff verifier token wanted id = elim (Result-cases (verifier token)) [
  | inr (e, bad) ↦ rw bad (λ h. absurd (err-ne-ok h), λ h. absurd (err-ne-ok h.0))
  | inl (i, good) ↦ elim (Bool-cases (str_eq wanted "")) [
    | inl blank ↦ rw (good, blank) (λ h. (h, inl ((eq_iff wanted "").0 blank)), λ h. h.0)
    | inr named ↦ elim (Bool-cases (has_scope i wanted)) [
      | inl has ↦
          rw (good, named, has)
            (λ h. (h, inr (subst (λ x. has_scope x wanted ≡ true) (ok-injective h) has)), λ h. h.0)
      | inr lacks ↦
          rw (good, named, lacks)
            (
              λ h. absurd (err-ne-ok h),
              λ h. elim h.1 [
                | inl e ↦ cc ((eq_iff wanted "").1 e, named)
                | inr has ↦
                    cc (subst (λ x. has_scope x wanted ≡ true) (sym (ok-injective h.0)) has, lacks)
              ],
            )
    ]
  ]
]

-- Whom a verifier finds behind a request's Authorization header; none where there is no bearer token.
abbrev pub found :
    (List ℕ → List ℕ)
    → (List ℕ → List ℕ)
    → List ℕ
    → (List ℕ → Result Error Identity)
    → Incoming
    → Option (Result Error Identity)
found trim lower bearer verifier r = elim (bearer_token trim lower bearer r.authorization) [
  | none ↦ none
  | some token ↦ some (verifier token)
]

-- For a request from another machine that does not itself carry the trusted token, whether its header is
-- blank or not, the middleware and the verifier with the trusted loopback together find just what the
-- verifier behind them finds in the request: the same identity, the same refusal, or no token.
pub remote_lem :
    (trim lower : List ℕ → List ℕ) (bearer : List ℕ) (t : Trust) (r : Incoming)
    → r.from_loopback ≡ false
    → bearer_token trim lower bearer r.authorization ≢ some t.token
    → found trim lower bearer (trust_verify t) (middleware trim bearer t r)
      ≡ found trim lower bearer t.base r
unfolding middleware trust_verify
remote_lem trim lower bearer t r remote apart =
    rw (passes (same_bytes (trim r.authorization) []))
      (elim (Option-cases (bearer_token trim lower bearer r.authorization)) [
        | inl missing ↦ rw (missing, found) refl
        | inr (token, given) ↦ elim (Bool-cases (same_bytes token t.token)) [
          | inl same ↦ absurd (apart (given ∙ ap some (same_bytes→eq token t.token same)))
          | inr other ↦ rw (given, found, other) refl
        ]
      ])
  where
    passes : (blank : Bool) → (blank && r.from_loopback) ≡ false
    passes true = remote
    passes false = refl
