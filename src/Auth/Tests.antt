-- ===== src/Auth/Tests.antt =====
-- Runs of internal/authn/authn.go and trusted.go, over a small codec.
use open_remote_commander.Prelude.{
  ◌≢◌, ◌-◌, ℕ, ◌+◌, ◌*◌, ◌/◌, ◌≡◌, refl, sym, ap, ◌∙◌, String, true, false, ◌&&◌, List, [], ◌∷◌,
  arith, Option, none, some, Result, ok, err, ok-injective, err-ne-ok, str_eq, eq_iff, ◌==◌, All,
  if◌then◌else◌, Bool-cases, inl, inr, trim_space, trim_left, trim_right, is_space, lookup, insert,
}
use open_remote_commander.Prelude.Int.{ℤ, pos, negsuc}
use open_remote_commander.Auth.{
  Error, invalid_token, failed, Identity, Claims, Codec, Hmac, mint, verify, split_dots, same_bytes,
  scope_set, second, Trust, trust_verify, Incoming, middleware, bearer_token, dot,
}
use open_remote_commander.Auth.Introspections.{
  instant, text, texts, audience_contains, any_is, fields, parse_scopes, Response, Introspection,
  cached, accepted, introspect, make_room,
}
use open_remote_commander.Auth.Tokens.{IsFaithful, verify-mint, IsSigned, verify-IsSigned}
use open_remote_commander.Auth.Cache.{Call, cache_after, IsAccepted, introspect-IsAccepted}
use open_remote_commander.Auth.Loopback.{found, remote_lem}

-- Bytes written as odd numbers, so that none is a dot.
abbrev odd : ℕ → ℕ
odd n = n * 2 + 1

halves : List ℕ → List ℕ
halves [] = []
halves (b ∷ bs) = b / 2 ∷ halves bs

abbrev doubles : List ℕ → List ℕ
doubles [] = []
doubles (b ∷ bs) = odd b ∷ doubles bs

-- Claims of alice for the audience "orc" with the scope "orc:tools", written as their two times.
abbrev write_parts : String → String → List String → ℤ → ℤ → Result Error (List ℕ)
write_parts subject audience (s ∷ []) (pos e) (pos i) =
    if str_eq subject "alice" && str_eq audience "orc" && str_eq s "orc:tools"
    then ok (e ∷ i ∷ [])
    else err (failed "no such claims")
write_parts _ _ _ _ _ = err (failed "no such claims")

abbrev write_claims : Claims → Result Error (List ℕ)
write_claims c = write_parts c.subject c.audience c.scopes c.expiry c.issued_at

abbrev alice_claims : ℕ → ℕ → Claims
alice_claims e i = record {
  subject = "alice";
  audience = "orc";
  scopes = "orc:tools" ∷ [];
  expiry = pos e;
  issued_at = pos i;
}

abbrev read_claims : List ℕ → Option Claims
read_claims (e ∷ i ∷ []) = some (alice_claims e i)
read_claims _ = none

-- The sum of the bytes, in place of a MAC.
abbrev sum : List ℕ → ℕ
sum [] = 0
sum (b ∷ bs) = b + sum bs

abbrev a_codec : Codec
a_codec = record {
  mac = λ bs. sum bs ∷ [];
  encode64 = doubles;
  decode64 = λ bs. some (halves bs);
  marshal = write_claims;
  unmarshal = read_claims;
  jwt_header = 1 ∷ [];
}

halves-doubles : (bs : List ℕ) → halves (doubles bs) ≡ bs
unfolding halves
halves-doubles [] = refl
halves-doubles (b ∷ bs) = let e : odd b / 2 ≡ b = omega arith in cc (e, halves-doubles bs)

doubles-no_dot : (bs : List ℕ) → All (λ c. (c == dot) ≡ false) (doubles bs)
doubles-no_dot [] = tt
doubles-no_dot (b ∷ bs) = (ground arith, doubles-no_dot bs)

write_parts-read :
    (subject audience : String) (scopes : List String) (e i : ℤ) (b : List ℕ)
    → write_parts subject audience scopes e i ≡ ok b
    → read_claims b
      ≡ some (record {
        subject = subject;
        audience = audience;
        scopes = scopes;
        expiry = e;
        issued_at = i;
      })
write_parts-read subject audience (s ∷ []) (pos e) (pos i) b =
    elim (Bool-cases (str_eq subject "alice" && str_eq audience "orc" && str_eq s "orc:tools")) [
      | inr bad ↦ rw bad λ h. absurd (err-ne-ok h)
      | inl good ↦ rw good λ h.
          let alice : subject ≡ "alice" = (eq_iff subject "alice").0 (ground (arith, good)) in
          let orc : audience ≡ "orc" = (eq_iff audience "orc").0 (ground (arith, good)) in
          let tools : s ≡ "orc:tools" = (eq_iff s "orc:tools").0 (ground (arith, good)) in
          ap read_claims (sym (ok-injective h)) ∙ cc (alice, orc, tools)
    ]
write_parts-read subject audience [] e i b = λ h. absurd (err-ne-ok h)
write_parts-read subject audience (s ∷ t ∷ ss) e i b = λ h. absurd (err-ne-ok h)
write_parts-read subject audience (s ∷ []) (negsuc e) i b = λ h. absurd (err-ne-ok h)
write_parts-read subject audience (s ∷ []) (pos e) (negsuc i) b = λ h. absurd (err-ne-ok h)

a_codec-IsFaithful : IsFaithful a_codec
a_codec-IsFaithful = record {
  decodes = λ b. ap some (halves-doubles b);
  no_dot = doubles-no_dot;
  reads = λ c b h. write_parts-read c.subject c.audience c.scopes c.expiry c.issued_at b h;
}

abbrev an_hmac : Hmac
an_hmac = record { codec = a_codec; audience = "orc" }

-- Issued at 100 s for 50 s.
abbrev a_token : List ℕ
a_token = 3 ∷ dot ∷ 301 ∷ 201 ∷ dot ∷ 1103 ∷ []

abbrev alice : Identity
alice = record { subject = "alice"; scopes = "orc:tools" ∷ []; expiry = pos 150 }

mints : mint an_hmac (100 * second) "alice" ("orc:tools" ∷ []) (pos (50 * second)) ≡ ok a_token
unfolding mint trim_space trim_left trim_right is_space
mints = refl

accepts : verify an_hmac (120 * second) a_token ≡ ok alice
unfolding verify split_dots same_bytes halves scope_set
accepts = refl

refuses_late : verify an_hmac (150 * second) a_token ≡ err invalid_token
unfolding verify split_dots same_bytes halves
refuses_late = refl

refuses_forged :
    verify an_hmac (120 * second) (3 ∷ dot ∷ 401 ∷ 201 ∷ dot ∷ 1103 ∷ []) ≡ err invalid_token
unfolding verify split_dots same_bytes halves
refuses_forged = refl

splits_scopes : fields " a  bc" ≡ "a" ∷ "bc" ∷ []
unfolding fields is_space
splits_scopes = refl

abbrev provider : Introspection
provider = record { https_endpoint = true; audience = "orc"; cache_ttl = pos 0; hash = λ t. "h" }

abbrev active_answer : Result Error Response
active_answer = ok (record {
  active = true;
  sub = "alice";
  scope = text "orc:tools";
  exp = some (pos 1000);
  aud = texts (none ∷ some "orc" ∷ []);
})

abbrev first_call : Call
first_call = record { now = 100 * second; victim = 0; answer = active_answer; token = 5 ∷ [] }

abbrev second_call : ℕ → Call
second_call t = record { now = t * second; victim = 0; answer = err invalid_token; token = 5 ∷ [] }

abbrev of_call : Call → Result Error Identity
of_call c =
    (introspect provider c.now c.victim c.answer c.token (cache_after provider (first_call ∷ []))).0

abbrev alice_there : Identity
alice_there = record { subject = "alice"; scopes = "orc:tools" ∷ []; expiry = pos 1000 }

remembers : of_call (second_call 114) ≡ ok alice_there
unfolding introspect cache_after cached accepted make_room insert lookup same_bytes
    audience_contains any_is parse_scopes fields is_space
remembers = refl

forgets : of_call (second_call 115) ≡ err invalid_token
unfolding introspect cache_after cached accepted make_room insert lookup same_bytes
    audience_contains any_is parse_scopes fields is_space
forgets = refl

verify-mint_example : verify an_hmac (120 * second) a_token ≡ ok alice
unfolding scope_set
verify-mint_example =
    verify-mint an_hmac (100 * second) (120 * second) "alice" ("orc:tools" ∷ []) (pos (50 * second))
      a_token a_codec-IsFaithful mints (omega arith) (omega arith)

verify-IsSigned_example : IsSigned an_hmac (120 * second) a_token alice
verify-IsSigned_example = verify-IsSigned an_hmac (120 * second) a_token alice accepts

introspect-IsAccepted_example : IsAccepted provider (first_call ∷ []) (second_call 114) alice_there
introspect-IsAccepted_example =
    introspect-IsAccepted provider (first_call ∷ []) (second_call 114) alice_there remembers

abbrev a_trust : Trust
a_trust = record { token = 9 ∷ []; identity = alice; base = λ t. err invalid_token }

abbrev bearer : List ℕ
bearer = 66 ∷ 101 ∷ 97 ∷ 114 ∷ 101 ∷ 114 ∷ 32 ∷ []

-- A request from afar without a token, and one from this machine.
abbrev blank : Incoming
blank = record { authorization = []; from_loopback = false }

abbrev near : Incoming
near = record { authorization = []; from_loopback = true }

trusts_near :
    found (λ s. s) (λ s. s) bearer (trust_verify a_trust) (middleware (λ s. s) bearer a_trust near)
    ≡ some (ok alice)
unfolding trust_verify middleware bearer_token same_bytes
trusts_near = refl

far_expiry : instant (pos 9223372036854775807) ≡ negsuc (9223372036854775809 * second - 1)
far_expiry = refl

blank_token : bearer_token (λ s. s) (λ s. s) bearer [] ≢ some (9 ∷ [])
unfolding bearer_token same_bytes
blank_token h = cc h

remote_lem_example :
    found (λ s. s) (λ s. s) bearer (trust_verify a_trust) (middleware (λ s. s) bearer a_trust blank)
    ≡ found (λ s. s) (λ s. s) bearer a_trust.base blank
remote_lem_example = remote_lem (λ s. s) (λ s. s) bearer a_trust blank refl blank_token
