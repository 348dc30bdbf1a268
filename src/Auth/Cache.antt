-- ===== src/Auth/Cache.antt =====
-- The cache of IntrospectionVerifier in internal/authn/authn.go, over a history of its calls.
use mathlib.Core.Option.{some-injective}
use open_remote_commander.Prelude.{
  ℕ, ◌+◌, ◌*◌, ◌%◌, ◌≤◌, ◌≡◌, refl, ap, subst, ◌∙◌, String, ◌||◌, not, List, [], ◌∷◌, arith, some,
  Map, Result, ok, err, ok-injective, err-ne-ok, length, get_elem?, leb, str_eq, if◌then◌else◌,
  lookup, insert, All, All-insert, All-delete, All-lookup, Bool-cases, Option-cases, Result-cases,
  ◌⊎◌, inl, inr,
}
use open_remote_commander.Prelude.Int.{ℤ, pos, negsuc, ltb_ℤ, ◌≤ℤ◌, ◌<ℤ◌}
use open_remote_commander.Auth.{Error, invalid_token, Identity, second, same_bytes}
use open_remote_commander.Auth.Introspections.{
  Response, Introspection, Entry, instant, fresh, cached, accepted, ttl_of, entry_of, drop_expired,
  drop_one, make_room, introspect,
}

introspect_cases :
    (P : Result Error Identity × Map Entry → Type 0) (v : Introspection) (now victim : ℕ)
    (answer : Result Error Response) (token : List ℕ) (cache : Map Entry)
    → ((e : Error) → P (err e, cache))
    → ((id : Identity) → cached v now token cache ≡ some id → P (ok id, cache))
    → ((id : Identity)
        → accepted v now answer ≡ ok id
        → P (ok id, insert (v.hash token) (entry_of v now id) (make_room now victim cache)))
    → P (introspect v now victim answer token cache)
unfolding introspect
introspect_cases P v now victim answer token cache failed hit told =
    elim (Bool-cases (same_bytes token [] || not v.https_endpoint || str_eq v.audience "")) [
      | inl refused ↦ rw (refused, introspect) (failed invalid_token)
      | inr asked ↦ elim (Option-cases (cached v now token cache)) [
        | inr (id, found) ↦ rw (asked, found, introspect) (hit id found)
        | inl miss ↦ elim (Result-cases (accepted v now answer)) [
          | inr (e, bad) ↦ rw (asked, miss, bad, introspect) (failed e)
          | inl (id, good) ↦ rw (asked, miss, good, introspect) (told id good)
        ]
      ]
    ]

-- A call of Verify, with what the provider would have answered it.
pub record Call : Type 0 where
  pub now : ℕ
  pub victim : ℕ
  pub answer : Result Error Response
  pub token : List ℕ

-- The cache after the calls, of which the last stands first.
unfoldable pub cache_after : Introspection → List Call → Map Entry
cache_after v [] = []
cache_after v (c ∷ past) = (introspect v c.now c.victim c.answer c.token (cache_after v past)).1

-- A call whose answer made the provider's identity `id` of a token with that hash, at most thirty
-- seconds before `until`.
pub record Vouches (v : Introspection) (k : String) (id : Identity) (until : ℤ) (c : Call)
    : Type 0 where
  pub answered : accepted v c.now c.answer ≡ ok id
  pub same_hash : v.hash c.token ≡ k
  pub recent : until ≤ℤ pos (c.now + 30 * second)

abbrev pub Some : {A : Type 0} → (A → Type 0) → List A → Type 0
Some P [] = ⊥
Some P (x ∷ xs) = P x ⊎ Some P xs

abbrev IsVouched : Introspection → List Call → String × Entry → Type 0
IsVouched v past (k, e) = Some (Vouches v k e.identity e.expires) past

later-IsVouched :
    (v : Introspection) (c : Call) (past : List Call) (m : Map Entry)
    → All (IsVouched v past) m
    → All (IsVouched v (c ∷ past)) m
later-IsVouched v c past [] h = tt
later-IsVouched v c past ((k, e) ∷ m) h = (inr h.0, later-IsVouched v c past m h.1)

module _ (P : String × Entry → Type 0) where
  drop_expired-All : (now : ℕ) (m : Map Entry) → All P m → All P (drop_expired now m)
  unfolding drop_expired
  drop_expired-All now [] h = tt
  drop_expired-All now ((k, e) ∷ m) h = elim (Bool-cases (ltb_ℤ e.expires (pos now))) [
    | inl stale ↦ rw stale (drop_expired-All now m h.1)
    | inr live ↦ rw live (h.0, drop_expired-All now m h.1)
  ]

  drop_one-All : (victim : ℕ) (m : Map Entry) → All P m → All P (drop_one victim m)
  unfolding drop_one
  drop_one-All victim m h = elim (Option-cases (get_elem? m (victim % length m))) [
    | inl nothing ↦ rw (nothing, drop_one) h
    | inr (p, at) ↦ rw (at, drop_one) (All-delete P p.0 m h)
  ]

  make_room-All : (now victim : ℕ) (m : Map Entry) → All P m → All P (make_room now victim m)
  unfolding make_room
  make_room-All now victim m h = elim (Bool-cases (leb 1024 (length m))) [
    | inr small ↦ rw small h
    | inl big ↦ elim (Bool-cases (leb 1024 (length (drop_expired now m)))) [
      | inr room ↦ rw (big, room) (drop_expired-All now m h)
      | inl full ↦
          rw (big, full) (drop_one-All victim (drop_expired now m) (drop_expired-All now m h))
    ]
  ]

ttl_of-le : (t : ℤ) → ttl_of t ≤ 30 * second
ttl_of-le t = ground arith

earlier-le : (i : ℤ) (n m : ℕ) → n ≤ m → (if ltb_ℤ i (pos n) then i else pos n) ≤ℤ pos m
earlier-le (pos k) n m h = ground (arith, h)
earlier-le (negsuc k) n m h = ground (arith, h)

entry-recent :
    (v : Introspection) (now : ℕ) (id : Identity)
    → (entry_of v now id).expires ≤ℤ pos (now + 30 * second)
entry-recent v now id =
    earlier-le (instant id.expiry) (now + ttl_of v.cache_ttl) (now + 30 * second)
      (omega (arith, ttl_of-le v.cache_ttl))

-- Every entry of the cache comes from an answer of the provider, at most thirty seconds ago when it
-- ends.
cache-IsVouched :
    (v : Introspection) (past : List Call) → All (IsVouched v past) (cache_after v past)
unfolding cache_after
cache-IsVouched v [] = tt
cache-IsVouched v (c ∷ past) =
    let old = later-IsVouched v c past (cache_after v past) (cache-IsVouched v past) in
    introspect_cases (λ r. All (IsVouched v (c ∷ past)) r.1) v c.now c.victim c.answer c.token
      (cache_after v past) (λ _. old) (λ _ _. old)
      λ id good.
        All-insert (IsVouched v (c ∷ past)) (v.hash c.token) (entry_of v c.now id)
          (make_room c.now c.victim (cache_after v past))
          (inl (record { answered = good; same_hash = refl; recent = entry-recent v c.now id }))
          (make_room-All (IsVouched v (c ∷ past)) c.now c.victim (cache_after v past) old)

-- How an identity may come to be accepted: on the provider's word now, or on an earlier word.
pub data IsAccepted (v : Introspection) (past : List Call) (c : Call) (id : Identity) : Type 0 where
  told : accepted v c.now c.answer ≡ ok id → IsAccepted v past c id
  remembered :
      (until : ℤ)
      → pos c.now <ℤ until
      → pos c.now <ℤ instant id.expiry
      → Some (Vouches v (v.hash c.token) id until) past
      → IsAccepted v past c id

cached-IsAccepted :
    (v : Introspection) (past : List Call) (c : Call) (id : Identity)
    → cached v c.now c.token (cache_after v past) ≡ some id
    → IsAccepted v past c id
unfolding cached
cached-IsAccepted v past c id = elim (Option-cases (lookup (v.hash c.token) (cache_after v past))) [
  | inl missing ↦ rw (missing, cached) λ h. cc h
  | inr (e, found) ↦ elim (Bool-cases (fresh c.now e)) [
    | inr stale ↦ rw (found, stale, cached) λ h. cc h
    | inl live ↦
        rw (found, live, cached)
          λ h.
            let same : e.identity ≡ id = some-injective e.identity id h in
            let vouched =
              All-lookup (IsVouched v past) (v.hash c.token) e (cache_after v past)
                (cache-IsVouched v past) found in
            remembered e.expires (ground (arith, live))
              (subst (λ (i : Identity). pos c.now <ℤ instant i.expiry) same (ground (arith, live)))
              (subst (λ i. Some (Vouches v (v.hash c.token) i e.expires) past) same vouched)
  ]
]

-- After any calls, Verify accepts an identity only if the provider's answer gives it now, or gave it in
-- an earlier call for a token with the same hash, less than thirty seconds ago, and the token's own
-- expiry is still ahead. So a token that is revoked is refused after thirty seconds at the latest.
pub introspect-IsAccepted :
    (v : Introspection) (past : List Call) (c : Call) (id : Identity)
    → (introspect v c.now c.victim c.answer c.token (cache_after v past)).0 ≡ ok id
    → IsAccepted v past c id
introspect-IsAccepted v past c id =
    introspect_cases (λ r. r.0 ≡ ok id → IsAccepted v past c id) v c.now c.victim c.answer c.token
      (cache_after v past) (λ _ h. absurd (err-ne-ok h))
      (λ i hit h. cached-IsAccepted v past c id (hit ∙ ap some (ok-injective h)))
      (λ i good h. told (good ∙ ap ok (ok-injective h)))
