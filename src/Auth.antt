-- ===== src/Auth.antt =====
-- internal/authn/authn.go and internal/authn/trusted.go. Tokens are lists of bytes; `now` counts
-- nanoseconds, and Unix() is its quotient by 10^9. SHA-256, HMAC, base64, encoding/json and the HTTP
-- exchange with the identity provider are arguments.
pub mod Introspections
pub mod Tokens
pub mod Cache
pub mod Loopback
pub mod Tests
use Prim.Native.Char.{Char}
use open_remote_commander.Prelude.{
  ℕ, zero, suc, ◌+◌, ◌-◌, ◌*◌, ◌/◌, ◌%◌, String, Bool, true, false, ◌&&◌, ◌||◌, not, List, [], ◌∷◌,
  ◌++◌, Option, none, some, Map, Result, ok, err, ◌>>=◌, ◌>>◌, fail_if, or_fail, length, take, drop,
  get_elem?, ltb, leb, ◌==◌, str_eq, if◌then◌else◌, lookup, insert, delete, trim_space, is_space,
}
use open_remote_commander.Prelude.Int.{ℤ, pos, negsuc, pos_part, leb_ℤ, ltb_ℤ}

pub data Error : Type 0 where
  invalid_token scope unreachable : Error
  failed : String → Error

pub record Identity : Type 0 where
  pub subject : String
  pub scopes : List String
  pub expiry : ℤ

unfoldable pub contains : String → List String → Bool
contains s [] = false
contains s (t ∷ ts) = str_eq t s || contains s ts

abbrev pub has_scope : Identity → String → Bool
has_scope id s = contains s id.scopes

pub record Claims : Type 0 where
  pub subject : String
  pub audience : String
  pub scopes : List String
  pub expiry : ℤ
  pub issued_at : ℤ

-- What the packages outside do for HMACVerifier.
pub record Codec : Type 0 where
  pub mac : List ℕ → List ℕ
  pub encode64 : List ℕ → List ℕ
  pub decode64 : List ℕ → Option (List ℕ)
  pub marshal : Claims → Result Error (List ℕ)
  pub unmarshal : List ℕ → Option Claims
  pub jwt_header : List ℕ

pub record Hmac : Type 0 where
  pub codec : Codec
  pub audience : String

-- NewHMACVerifier, with the length of the secret; the secret itself is in `mac`.
unfoldable pub new_hmac : Codec → ℕ → String → Result Error Hmac
new_hmac codec secret_length audience = do
  fail_if (ltb secret_length 32) (failed "HMAC secret must be at least 32 bytes")
  fail_if (str_eq (trim_space audience) "") (failed "audience is required")
  ok (record { codec = codec; audience = audience })

abbrev pub second : ℕ
second = 1000000000

abbrev pub unix : ℕ → ℕ
unix t = t / second

abbrev pub dot : ℕ
dot = 0x2e

abbrev pub thirty_days : ℕ
thirty_days = 30 * 24 * 3600 * second

unfoldable pub mint : Hmac → ℕ → String → List String → ℤ → Result Error (List ℕ)
mint v now subject scopes ttl = do
  fail_if (str_eq (trim_space subject) "") (failed "subject is required")
  fail_if (leb_ℤ ttl (pos 0) || ltb_ℤ (pos thirty_days) ttl)
      (failed "ttl must be between 1ns and 30d")
  payload ← v.codec.marshal (record {
    subject = subject;
    audience = v.audience;
    scopes = scopes;
    expiry = pos (unix (now + pos_part ttl));
    issued_at = pos (unix now);
  })
  let signing = v.codec.encode64 v.codec.jwt_header ++ dot ∷ v.codec.encode64 payload
  ok (signing ++ dot ∷ v.codec.encode64 (v.codec.mac signing))

abbrev pub onto_first : ℕ → List (List ℕ) → List (List ℕ)
onto_first c [] = (c ∷ []) ∷ []
onto_first c (l ∷ ls) = (c ∷ l) ∷ ls

-- strings.Split(token, ".")
unfoldable pub split_dots : List ℕ → List (List ℕ)
split_dots [] = [] ∷ []
split_dots (c ∷ s) = let rest = split_dots s in if c == dot then [] ∷ rest else onto_first c rest

abbrev pub three_parts : List (List ℕ) → Option (List ℕ × List ℕ × List ℕ)
three_parts (a ∷ b ∷ c ∷ []) = some (a, b, c)
three_parts _ = none

-- subtle.ConstantTimeCompare
unfoldable pub same_bytes : List ℕ → List ℕ → Bool
same_bytes [] [] = true
same_bytes [] (b ∷ bs) = false
same_bytes (a ∷ as_) [] = false
same_bytes (a ∷ as_) (b ∷ bs) = a == b && same_bytes as_ bs

-- The scopes as a set: the first of each, and no empty one.
unfoldable pub scope_set : List String → List String
scope_set [] = []
scope_set (s ∷ ss) = let rest = scope_set ss in if str_eq s "" then rest else s ∷ rest

abbrev pub bad_claims : Hmac → ℕ → Claims → Bool
bad_claims v now c =
    str_eq c.subject ""
    || not (str_eq c.audience v.audience)
    || leb_ℤ c.expiry (pos (unix now))
    || ltb_ℤ (pos (unix now + 60)) c.issued_at

unfoldable pub verify : Hmac → ℕ → List ℕ → Result Error Identity
verify v now token = do
  (header, payload, sig) ← or_fail (three_parts (split_dots token)) invalid_token
  got ← or_fail (v.codec.decode64 sig) invalid_token
  fail_if (not (same_bytes got (v.codec.mac (header ++ dot ∷ payload)))) invalid_token
  bytes ← or_fail (v.codec.decode64 payload) invalid_token
  c ← or_fail (v.codec.unmarshal bytes) invalid_token
  fail_if (bad_claims v now c) invalid_token
  ok (record { subject = c.subject; scopes = scope_set c.scopes; expiry = c.expiry })

-- Require, for any verifier.
unfoldable pub require : (List ℕ → Result Error Identity) → List ℕ → String → Result Error Identity
require verifier token wanted = do
  id ← verifier token
  fail_if (not (str_eq wanted "") && not (has_scope id wanted)) scope
  ok id

-- LoopbackTrust: its own token and identity, in front of another verifier.
pub record Trust : Type 0 where
  pub token : List ℕ
  pub identity : Identity
  pub base : List ℕ → Result Error Identity

unfoldable pub trust_verify : Trust → List ℕ → Result Error Identity
trust_verify t token = if same_bytes token t.token then ok t.identity else t.base token

-- A request: the Authorization header, and whether RemoteAddr is a loopback address.
pub record Incoming : Type 0 where
  pub authorization : List ℕ
  pub from_loopback : Bool

-- `bearer` is the text "Bearer "; `trim` is strings.TrimSpace on bytes.
unfoldable pub middleware : (List ℕ → List ℕ) → List ℕ → Trust → Incoming → Incoming
middleware trim bearer t r =
    if same_bytes (trim r.authorization) [] && r.from_loopback
    then record r { authorization = bearer ++ t.token }
    else r

-- BearerToken: the rest of a header that begins with "Bearer ", in any case. `lower` folds the case.
unfoldable pub bearer_token :
    (List ℕ → List ℕ) → (List ℕ → List ℕ) → List ℕ → List ℕ → Option (List ℕ)
bearer_token trim lower bearer authorization =
    let h = trim authorization in
    if ltb (length h) 8 || not (same_bytes (lower (take 7 h)) (lower bearer))
    then none
    else let t = trim (drop 7 h) in (if same_bytes t [] then none else some t)
