-- ===== src/Auth/Introspections.antt =====
-- internal/authn/authn.go: IntrospectionVerifier and its cache, over the answers of the provider.
use Prim.Native.Char.{Char}
use open_remote_commander.Prelude.{
  ltb, ◌^◌, ℕ, suc, ◌+◌, ◌-◌, ◌*◌, ◌%◌, String, Bool, false, ◌&&◌, ◌||◌, not, List, [], ◌∷◌, Option,
  none, some, Map, Result, ok, err, ◌>>=◌, ◌>>◌, fail_if, or_fail, length, get_elem?, leb, str_eq,
  if◌then◌else◌, lookup, insert, delete, is_space,
}
use open_remote_commander.Prelude.Int.{ℤ, pos, negsuc, pos_part, leb_ℤ, ltb_ℤ}
use open_remote_commander.Auth.{Error, Identity, invalid_token, same_bytes, scope_set, second}

-- A JSON value, as far as the response is looked at.
pub data Json : Type 0 where
  text : String → Json
  texts : List (Option String) → Json
  other : Json

-- case []any: an item that is no string is none.
unfoldable pub any_is : String → List (Option String) → Bool
any_is want [] = false
any_is want (none ∷ items) = any_is want items
any_is want (some s ∷ items) = str_eq s want || any_is want items

unfoldable pub audience_contains : Json → String → Bool
unfolding any_is
audience_contains (text s) want = str_eq s want
audience_contains (texts items) want = any_is want items
audience_contains other want = false

abbrev pub given_texts : List (Option String) → List String
given_texts [] = []
given_texts (none ∷ items) = given_texts items
given_texts (some s ∷ items) = s ∷ given_texts items

abbrev pub starts_word : String → Bool
starts_word String.[] = false
starts_word (String.◌∷◌ c s) = not (is_space c)

abbrev pub onto_word : Char → List String → List String
onto_word c [] = String.◌∷◌ c String.[] ∷ []
onto_word c (w ∷ ws) = String.◌∷◌ c w ∷ ws

-- strings.Fields
unfoldable pub fields : String → List String
fields String.[] = []
fields (String.◌∷◌ c s) =
    let rest = fields s in
    if is_space c
    then rest
    else if starts_word s
    then onto_word c rest
    else String.◌∷◌ c String.[] ∷ rest

unfoldable pub parse_scopes : Json → List String
unfolding scope_set fields
parse_scopes (text s) = fields s
parse_scopes (texts items) = scope_set (given_texts items)
parse_scopes other = []

pub record Response : Type 0 where
  pub active : Bool
  pub sub : String
  pub scope : Json
  pub exp : Option ℤ
  pub aud : Json

pub record Introspection : Type 0 where
  pub https_endpoint : Bool
  pub audience : String
  pub cache_ttl : ℤ
  pub hash : List ℕ → String

pub record Entry : Type 0 where
  pub identity : Identity
  pub expires : ℤ

-- 2^63 less the seconds from Go's zero time to that of Unix.
abbrev pub unix_end : ℕ
unix_end = 9223371974719179008

-- Times of the cache are nanoseconds; `exp` is in seconds. time.Unix counts from Go's zero time in 64
-- bits, so a number of seconds beyond `unix_end` wraps to a time long past.
abbrev pub instant : ℤ → ℤ
instant (pos n) = if ltb n unix_end then pos (n * second) else negsuc ((2 ^ 64 - n) * second - 1)
instant (negsuc n) = negsuc (suc n * second - 1)

abbrev pub fresh : ℕ → Entry → Bool
fresh now e = ltb_ℤ (pos now) e.expires && ltb_ℤ (pos now) (instant e.identity.expiry)

unfoldable pub cached : Introspection → ℕ → List ℕ → Map Entry → Option Identity
cached v now token cache = elim (lookup (v.hash token) cache) [
  | none ↦ none
  | some e ↦ if fresh now e then some e.identity else none
]

-- What the provider's answer makes of the token; no answer, or one that is no JSON, is an error.
unfoldable pub accepted : Introspection → ℕ → Result Error Response → Result Error Identity
accepted v now answer = do
  r ← answer
  fail_if (not r.active || str_eq r.sub "" || not (audience_contains r.aud v.audience))
      invalid_token
  exp ← or_fail r.exp invalid_token
  fail_if (not (ltb_ℤ (pos now) (instant exp))) invalid_token
  ok (record { subject = r.sub; scopes = parse_scopes r.scope; expiry = exp })

abbrev pub ttl_of : ℤ → ℕ
ttl_of t = if leb_ℤ t (pos 0) || ltb_ℤ (pos (30 * second)) t then 15 * second else pos_part t

-- The earlier of now + ttl and the token's own expiry.
abbrev pub entry_of : Introspection → ℕ → Identity → Entry
entry_of v now id =
    let by_ttl = pos (now + ttl_of v.cache_ttl) in
    record {
      identity = id;
      expires = if ltb_ℤ (instant id.expiry) by_ttl then instant id.expiry else by_ttl;
    }

unfoldable pub drop_expired : ℕ → Map Entry → Map Entry
drop_expired now [] = []
drop_expired now ((k, e) ∷ m) =
    let rest = drop_expired now m in if ltb_ℤ e.expires (pos now) then rest else (k, e) ∷ rest

-- for k := range v.cache { delete(v.cache, k); break }: some entry, at `victim`.
unfoldable pub drop_one : ℕ → Map Entry → Map Entry
drop_one victim m = elim (get_elem? m (victim % length m)) [ none ↦ m | some p ↦ delete p.0 m ]

unfoldable pub make_room : ℕ → ℕ → Map Entry → Map Entry
unfolding drop_expired drop_one
make_room now victim m =
    if leb 1024 (length m)
    then (let kept = drop_expired now m in
        if leb 1024 (length kept) then drop_one victim kept else kept)
    else m

-- IntrospectionVerifier.Verify; `answer` is the provider's, had it been asked.
unfoldable pub introspect :
    Introspection
    → ℕ
    → ℕ
    → Result Error Response
    → List ℕ
    → Map Entry
    → Result Error Identity × Map Entry
unfolding make_room
introspect v now victim answer token cache =
    if same_bytes token [] || not v.https_endpoint || str_eq v.audience ""
    then (err invalid_token, cache)
    else elim (cached v now token cache) [
      | some id ↦ (ok id, cache)
      | none ↦ elim (accepted v now answer) [
        | err e ↦ (err e, cache)
        | ok id ↦ (ok id, insert (v.hash token) (entry_of v now id) (make_room now victim cache))
      ]
    ]
