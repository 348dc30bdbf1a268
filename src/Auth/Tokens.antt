-- ===== src/Auth/Tokens.antt =====
-- The signed tokens of internal/authn/authn.go: Mint against Verify.
use open_remote_commander.Prelude.{
  ℕ, ◌+◌, ◌<◌, ◌≤◌, ◌≡◌, ◌≢◌, refl, sym, ap, subst, ◌∙◌, String, Bool, true, false, ◌||◌, not, List,
  [], ◌∷◌, ◌++◌, append_assoc, arith, Option, none, some, ok, ok-injective, step_of, fail_if,
  fail_if-eq-ok, or_fail, ◌==◌, str_eq, str_eq_self, eq_iff, All, Bool-cases, inl, inr, trim_space,
  trim_left, trim_right,
}
use open_remote_commander.Prelude.Int.{ℤ, pos, pos_part, leb_ℤ, ltb_ℤ, ◌≤ℤ◌, ◌<ℤ◌}
use open_remote_commander.Auth.{
  Error, invalid_token, Identity, Claims, Codec, Hmac, unix, dot, thirty_days, mint, split_dots,
  three_parts, same_bytes, scope_set, bad_claims, verify,
}

abbrev NoDot : List ℕ → Type 0
NoDot = All λ c. (c == dot) ≡ false

-- What the code relies on: base64 without dots and without loss, and JSON that reads back what it
-- wrote.
pub record IsFaithful (codec : Codec) : Type 0 where
  pub decodes : (b : List ℕ) → codec.decode64 (codec.encode64 b) ≡ some b
  pub no_dot : (b : List ℕ) → All (λ c. (c == dot) ≡ false) (codec.encode64 b)
  pub reads : (c : Claims) (b : List ℕ) → codec.marshal c ≡ ok b → codec.unmarshal b ≡ some c

split_dots-append : (xs s : List ℕ) → NoDot xs → split_dots (xs ++ dot ∷ s) ≡ xs ∷ split_dots s
unfolding split_dots
split_dots-append [] s h = refl
split_dots-append (x ∷ xs) s h = rw (h.0, split_dots-append xs s h.1) refl

split_dots-word : (xs : List ℕ) → NoDot xs → split_dots xs ≡ xs ∷ []
unfolding split_dots
split_dots-word [] h = refl
split_dots-word (x ∷ xs) h = rw (h.0, split_dots-word xs h.1) refl

split_token :
    (a b c : List ℕ)
    → NoDot a
    → NoDot b
    → NoDot c
    → split_dots ((a ++ dot ∷ b) ++ dot ∷ c) ≡ a ∷ b ∷ c ∷ []
split_token a b c ha hb hc =
    ap split_dots (append_assoc a (dot ∷ b) (dot ∷ c))
    ∙ split_dots-append a (b ++ dot ∷ c) ha
    ∙ ap (λ t. a ∷ t) (split_dots-append b c hb ∙ ap (λ t. b ∷ t) (split_dots-word c hc))

same_bytes_self : (bs : List ℕ) → same_bytes bs bs ≡ true
unfolding same_bytes
same_bytes_self [] = refl
same_bytes_self (b ∷ bs) = ground (arith, same_bytes_self bs)

pub same_bytes→eq : (as_ bs : List ℕ) → same_bytes as_ bs ≡ true → as_ ≡ bs
unfolding same_bytes
same_bytes→eq [] [] h = refl
same_bytes→eq [] (b ∷ bs) h = cc
same_bytes→eq (a ∷ as_) [] h = cc
same_bytes→eq (a ∷ as_) (b ∷ bs) h =
    let heads : a ≡ b = ground (arith, h) in
    let tails = same_bytes→eq as_ bs (ground (arith, h)) in cc (heads, tails)

not_blank : (s : String) → str_eq (trim_space s) "" ≡ false → str_eq s "" ≡ false
unfolding trim_space trim_left trim_right
not_blank s h = elim (Bool-cases (str_eq s "")) [
  | inl blank ↦
      let trimmed = subst (λ t. str_eq (trim_space t) "" ≡ false) ((eq_iff s "").0 blank) h in
      cc trimmed
  | inr named ↦ named
]

abbrev claims_of : Hmac → ℕ → String → List String → ℤ → Claims
claims_of v now subject scopes ttl = record {
  subject = subject;
  audience = v.audience;
  scopes = scopes;
  expiry = pos (unix (now + pos_part ttl));
  issued_at = pos (unix now);
}

-- What Verify makes of a token that is signed over the claims.
verify-signed :
    (v : Hmac) (now : ℕ) (payload : List ℕ) (c : Claims)
    → IsFaithful v.codec
    → v.codec.marshal c ≡ ok payload
    → bad_claims v now c ≡ false
    → let signing = v.codec.encode64 v.codec.jwt_header ++ dot ∷ v.codec.encode64 payload in
      verify v now (signing ++ dot ∷ v.codec.encode64 (v.codec.mac signing))
      ≡ ok (record { subject = c.subject; scopes = scope_set c.scopes; expiry = c.expiry })
unfolding verify
verify-signed v now payload c codec written good =
    let head = v.codec.encode64 v.codec.jwt_header in
    let body = v.codec.encode64 payload in
    let signing = head ++ dot ∷ body in
    let mac = v.codec.mac signing in
    rw
      (
        split_token head body (v.codec.encode64 mac) (codec.no_dot v.codec.jwt_header)
            (codec.no_dot payload) (codec.no_dot mac),
        codec.decodes mac,
        same_bytes_self mac,
        codec.decodes payload,
        codec.reads c payload written,
        good,
      )
      refl

claims_good :
    (v : Hmac) (now : ℕ) (c : Claims)
    → str_eq c.subject "" ≡ false
    → str_eq c.audience v.audience ≡ true
    → pos (unix now) <ℤ c.expiry
    → c.issued_at ≤ℤ pos (unix now + 60)
    → bad_claims v now c ≡ false
claims_good v now c named same in_time issued = rw (named, same) (ground (arith, in_time, issued))

-- A token that Mint gives is accepted while its time lasts, on a clock that is at most a minute behind
-- the one that issued it, and stands for the subject, the scopes that are not empty and the expiry.
pub verify-mint :
    (v : Hmac) (now later : ℕ) (subject : String) (scopes : List String) (ttl : ℤ) (token : List ℕ)
    → IsFaithful v.codec
    → mint v now subject scopes ttl ≡ ok token
    → unix later < unix (now + pos_part ttl)
    → unix now ≤ unix later + 60
    → verify v later token
      ≡ ok (record {
        subject = subject;
        scopes = scope_set scopes;
        expiry = pos (unix (now + pos_part ttl));
      })
unfolding mint
verify-mint v now later subject scopes ttl token codec minted in_time issued =
    step_of (fail_if (str_eq (trim_space subject) "") _) _ minted λ _ named h.
      step_of (fail_if (leb_ℤ ttl (pos 0) || ltb_ℤ (pos thirty_days) ttl) _) _ h λ _ short h.
        step_of (v.codec.marshal (claims_of v now subject scopes ttl)) _ h λ payload written h.
          let c = claims_of v now subject scopes ttl in
          let good : bad_claims v later c ≡ false =
            claims_good v later c
              (not_blank subject (fail_if-eq-ok (str_eq (trim_space subject) "") _ named))
              (str_eq_self v.audience) (omega (arith, in_time)) (omega (arith, issued)) in
          subst
            (λ t.
              verify v later t
              ≡ ok (record {
                subject = subject;
                scopes = scope_set scopes;
                expiry = pos (unix (now + pos_part ttl));
              }))
            (ok-injective h) (verify-signed v later payload c codec written good)

-- What a token that Verify accepts is.
pub record IsSigned (v : Hmac) (now : ℕ) (token : List ℕ) (id : Identity) : Type 0 where
  pub header : List ℕ
  pub payload : List ℕ
  pub signature : List ℕ
  pub claims : Claims
  pub parts : split_dots token ≡ header ∷ payload ∷ signature ∷ []
  pub signed : v.codec.decode64 signature ≡ some (v.codec.mac (header ++ dot ∷ payload))
  pub written :
      (bytes : List ℕ) × (v.codec.decode64 payload ≡ some bytes)
      × (v.codec.unmarshal bytes ≡ some claims)
  pub named : claims.subject ≢ ""
  pub audience : claims.audience ≡ v.audience
  pub in_time : pos (unix now) <ℤ claims.expiry
  pub issued : claims.issued_at ≤ℤ pos (unix now + 60)
  pub identity : id ≡ record {
    subject = claims.subject;
    scopes = scope_set claims.scopes;
    expiry = claims.expiry;
  }

claims_parts :
    (v : Hmac) (now : ℕ) (c : Claims)
    → bad_claims v now c ≡ false
    → (str_eq c.subject "" ≡ false)
      × (str_eq c.audience v.audience ≡ true)
      × (pos (unix now) <ℤ c.expiry)
      × (c.issued_at ≤ℤ pos (unix now + 60))
claims_parts v now c good = ground (arith, good)

three_parts-eq-some :
    (ps : List (List ℕ)) (a b c : List ℕ) → three_parts ps ≡ some (a, b, c) → ps ≡ a ∷ b ∷ c ∷ []
three_parts-eq-some (a' ∷ b' ∷ c' ∷ []) a b c h = cc h
three_parts-eq-some [] a b c h = cc h
three_parts-eq-some (a' ∷ []) a b c h = cc h
three_parts-eq-some (a' ∷ b' ∷ []) a b c h = cc h
three_parts-eq-some (a' ∷ b' ∷ c' ∷ d ∷ ps) a b c h = cc h

or_fail-eq-ok : {A : Type 0} (o : Option A) (e : Error) (a : A) → or_fail o e ≡ ok a → o ≡ some a
or_fail-eq-ok none e a h = cc h
or_fail-eq-ok (some b) e a h = ap some (ok-injective h)

not-eq-false : (b : Bool) → not b ≡ false → b ≡ true
not-eq-false true h = refl
not-eq-false false h = cc h

-- Verify accepts a token only if it has three parts, the third is the MAC of the first two, and the
-- claims that the second holds name a subject and this audience, are not expired and were not issued
-- more than a minute ahead; the identity is that of these claims.
pub verify-IsSigned :
    (v : Hmac) (now : ℕ) (token : List ℕ) (id : Identity)
    → verify v now token ≡ ok id
    → IsSigned v now token id
unfolding verify
verify-IsSigned v now token id accepted =
    step_of (or_fail (three_parts (split_dots token)) invalid_token) _ accepted
      λ (header, payload, sig) parts h.
        step_of (or_fail (v.codec.decode64 sig) invalid_token) _ h λ got decoded h.
          let mac = v.codec.mac (header ++ dot ∷ payload) in
          step_of (fail_if (not (same_bytes got mac)) invalid_token) _ h λ _ same h.
            step_of (or_fail (v.codec.decode64 payload) invalid_token) _ h λ bytes body h.
              step_of (or_fail (v.codec.unmarshal bytes) invalid_token) _ h λ c json h.
                step_of (fail_if (bad_claims v now c) invalid_token) _ h λ _ good h.
                  let (named, audience, in_time, issued) =
                    claims_parts v now c (fail_if-eq-ok (bad_claims v now c) _ good) in
                  let equal = same_bytes→eq got mac (
                    not-eq-false (same_bytes got mac)
                      (fail_if-eq-ok (not (same_bytes got mac)) _ same)) in
                  record {
                    header = header;
                    payload = payload;
                    signature = sig;
                    claims = c;
                    parts = three_parts-eq-some (split_dots token) header payload sig (
                        or_fail-eq-ok (three_parts (split_dots token)) _ (header, payload, sig)
                          parts);
                    signed = or_fail-eq-ok (v.codec.decode64 sig) _ got decoded ∙ ap some equal;
                    written = (
                      bytes,
                      or_fail-eq-ok (v.codec.decode64 payload) _ bytes body,
                      or_fail-eq-ok (v.codec.unmarshal bytes) _ c json,
                    );
                    named = λ e. cc ((eq_iff c.subject "").1 e, named);
                    audience = (eq_iff c.audience v.audience).0 audience;
                    in_time = in_time;
                    issued = issued;
                    identity = sym (ok-injective h);
                  }
