-- ===== src/Config/Safe.antt =====
-- What `LoadServer` of internal/config/config.go accepts is safe to run.
use open_remote_commander.Prelude.{
  ◌≤◌, ◌≡◌, ◌≢◌, ◌⊎◌, inl, inr, subst, String, true, false, not, ◌||◌, Option, none, some, ok, len,
  ltb, fail_if, or_fail, step_of, fail_if-eq-ok, ok-injective, err-ne-ok, str_eq, eq_iff, arith,
  Bool-cases,
}
use open_remote_commander.Prelude.Int.{pos, ltb_ℤ}
use open_remote_commander.Config.{
  Library, Url, Server, is_loopback, check_url, check_trusted, check_trust, check_auth,
  check_introspection, checked_server, load_server, server_of, loopback_wanted, https_wanted,
}

-- The address is one over https, or one over http of this machine.
pub record IsSecure (l : Library) (base : String) : Type 0 where
  pub url : Url
  pub parsed : l.parse_url base ≡ some url
  pub hosted : url.host ≢ ""
  pub secure :
      (url.scheme ≡ "https") ⊎ ((url.scheme ≡ "http") × (is_loopback l url.hostname ≡ true))

-- Who is trusted without a token is named, and only this machine can be it.
pub record IsTrusting (l : Library) (c : Server) : Type 0 where
  pub named : c.mcp_trusted_subject ≢ ""
  pub host : String
  pub listens : l.split_host c.listen_addr ≡ some host
  pub local : is_loopback l host ≡ true

-- The provider is asked over https, for a named issuer.
pub record IsIntrospecting (l : Library) (c : Server) : Type 0 where
  pub url : Url
  pub parsed : l.parse_url c.introspection_url ≡ some url
  pub hosted : url.host ≢ ""
  pub secure : url.scheme ≡ "https"
  pub issued : c.auth_issuer ≢ ""

pub record IsSafe (l : Library) (c : Server) : Type 0 where
  pub secure : IsSecure l c.public_base_url
  pub at_least_one : ltb_ℤ c.max_in_flight_per_device (pos 1) ≡ false
  pub at_most_128 : ltb_ℤ (pos 128) c.max_in_flight_per_device ≡ false
  pub pairing : 32 ≤ len c.pairing_secret
  pub trusting : c.mcp_trust_loopback ≡ true → IsTrusting l c
  pub verifying :
      ((c.auth_mode ≡ "dev") × (32 ≤ len c.hmac_secret))
      ⊎ ((c.auth_mode ≡ "introspection") × IsIntrospecting l c)

or_fail-eq-ok : {A : Type 0} (o : Option A) (e : String) {a : A} → or_fail o e ≡ ok a → o ≡ some a
or_fail-eq-ok none e h = cc
or_fail-eq-ok (some a) e h = cc

check_url-IsSecure :
    (l : Library) (base invalid insecure : String)
    → check_url l base invalid insecure ≡ ok tt
    → IsSecure l base
unfolding check_url
check_url-IsSecure l base invalid insecure h =
    step_of (or_fail (l.parse_url base) invalid) _ h λ u found h.
      step_of (fail_if (str_eq u.host "") invalid) _ h λ _ hosted last.
        let plain = fail_if-eq-ok (str_eq u.host "") invalid hosted in
        let safe = fail_if-eq-ok _ insecure last in
        record {
          url = u;
          parsed = or_fail-eq-ok (l.parse_url base) invalid found;
          hosted = λ e. ground (arith, plain, e, eq_iff u.host "");
          secure = elim (Bool-cases (str_eq u.scheme "https")) [
            | inl https ↦ inl ((eq_iff u.scheme "https").0 https)
            | inr other ↦ inr (
              (eq_iff u.scheme "http").0 (ground (arith, safe, other)),
              ground (arith, safe, other),
            )
          ];
        }

check_trusted-IsTrusting : (l : Library) (c : Server) → check_trusted l c ≡ ok tt → IsTrusting l c
unfolding check_trusted
check_trusted-IsTrusting l c h =
    step_of (fail_if (str_eq c.mcp_trusted_subject "") _) _ h λ _ named h.
      step_of (or_fail (l.split_host c.listen_addr) loopback_wanted) _ h λ host found last.
        let given = fail_if-eq-ok (str_eq c.mcp_trusted_subject "") _ named in
        let near = fail_if-eq-ok (not (is_loopback l host)) loopback_wanted last in
        record {
          named = λ e. ground (arith, given, e, eq_iff c.mcp_trusted_subject "");
          host = host;
          listens = or_fail-eq-ok (l.split_host c.listen_addr) loopback_wanted found;
          local = ground (arith, near);
        }

check_introspection-IsIntrospecting :
    (l : Library) (c : Server) → check_introspection l c ≡ ok tt → IsIntrospecting l c
unfolding check_introspection
check_introspection-IsIntrospecting l c h =
    step_of (or_fail (l.parse_url c.introspection_url) https_wanted) _ h λ u found h.
      step_of (fail_if (not (str_eq u.scheme "https") || str_eq u.host "") https_wanted) _ h
        λ _ secure last.
          let plain =
            fail_if-eq-ok (not (str_eq u.scheme "https") || str_eq u.host "") https_wanted secure in
          let named = fail_if-eq-ok (str_eq c.auth_issuer "") _ last in
          record {
            url = u;
            parsed = or_fail-eq-ok (l.parse_url c.introspection_url) https_wanted found;
            hosted = λ e. ground (arith, plain, e, eq_iff u.host "");
            secure = (eq_iff u.scheme "https").0 (ground (arith, plain));
            issued = λ e. ground (arith, named, e, eq_iff c.auth_issuer "");
          }

check_auth-IsVerifying :
    (l : Library) (c : Server)
    → check_auth l c ≡ ok tt
    → ((c.auth_mode ≡ "dev") × (32 ≤ len c.hmac_secret))
      ⊎ ((c.auth_mode ≡ "introspection") × IsIntrospecting l c)
unfolding check_auth
check_auth-IsVerifying l c = elim (Bool-cases (str_eq c.auth_mode "dev")) [
  | inl dev ↦ rw dev λ h.
      let long = fail_if-eq-ok (ltb (len c.hmac_secret) 32) _ h in
      inl ((eq_iff c.auth_mode "dev").0 dev, ground (arith, long))
  | inr other ↦ elim (Bool-cases (str_eq c.auth_mode "introspection")) [
    | inl asks ↦
        rw (other, asks)
          λ h.
            inr (
              (eq_iff c.auth_mode "introspection").0 asks,
              check_introspection-IsIntrospecting l c h,
            )
    | inr unknown ↦ rw (other, unknown) λ h. absurd (err-ne-ok h)
  ]
]

check_trust_on :
    (l : Library) (c : Server)
    → c.mcp_trust_loopback ≡ true
    → check_trust l c ≡ ok tt
    → check_trusted l c ≡ ok tt
unfolding check_trust
check_trust_on l c on = rw on λ h. h

checked_server-IsSafe : (l : Library) (c d : Server) → checked_server l c ≡ ok d → IsSafe l d
unfolding checked_server
checked_server-IsSafe l c d h = step_of (fail_if (str_eq c.listen_addr "") _) _ h λ _ _ h.
    step_of (check_url l c.public_base_url _ _) _ h λ _ url h.
      step_of
        (fail_if
          (ltb_ℤ c.max_in_flight_per_device (pos 1) || ltb_ℤ (pos 128) c.max_in_flight_per_device)
          _)
        _ h
        λ _ flight h. step_of (fail_if (ltb (len c.pairing_secret) 32) _) _ h λ _ pairing h.
          step_of (check_trust l c) _ h λ _ trust h.
            step_of (check_auth l c) (λ _. ok c) h
              λ _ auth last.
                let bounds =
                  fail_if-eq-ok
                    (ltb_ℤ c.max_in_flight_per_device (pos 1)
                      || ltb_ℤ (pos 128) c.max_in_flight_per_device)
                    _ flight in
                let long = fail_if-eq-ok (ltb (len c.pairing_secret) 32) _ pairing in
                subst (IsSafe l) (ok-injective last) (record {
                  secure = check_url-IsSecure l c.public_base_url _ _ url;
                  at_least_one = ground (arith, bounds);
                  at_most_128 = ground (arith, bounds);
                  pairing = ground (arith, long);
                  trusting =
                      λ trusted. check_trusted-IsTrusting l c (check_trust_on l c trusted trust);
                  verifying = check_auth-IsVerifying l c auth;
                })

-- A server configuration that LoadServer returns has a public address over https, or over http of this
-- machine, a bound of 1 to 128 on the calls of a device, a pairing secret of 32 bytes or more, and a
-- way to check tokens: a secret of 32 bytes or more, or a provider that is asked over https. If it
-- trusts this machine without a token, it names whom it trusts and listens on this machine only.
pub load_server-IsSafe : (l : Library) (c : Server) → load_server l ≡ ok c → IsSafe l c
unfolding load_server
load_server-IsSafe l c = checked_server-IsSafe l (server_of l) c
