-- ===== src/Limiter/Levels.antt =====
-- What a request changes in the buckets of internal/controlplane/limiter.go.
use open_remote_commander.Prelude.{
  ℕ, zero, suc, ◌+◌, ◌-◌, ◌*◌, ◌<◌, ◌≤◌, ◌≡◌, refl, ap, subst, ◌∙◌, String, Bool, true, false, [],
  ◌∷◌, arith, Option, none, some, Map, length, ltb, ◌==◌, str_eq, eq_iff, if◌then◌else◌, lookup,
  insert, lookup-insert, Distinct, insert-Distinct, Bool-cases, inl, inr,
}
use open_remote_commander.Limiter.{
  Rate, Bucket, half_hour, refilled, is_old, drop_old, bucket_of, allow,
}

-- The tokens that a key has at a time.
abbrev pub level : Rate → ℕ → String → Map Bucket → ℕ
level r now key m = refilled r now (lookup key m)

-- A half hour fills a bucket.
abbrev pub IsSlow : Rate → Type 0
IsSlow r = r.burst ≤ half_hour * r.rate

pub refilled-le : (r : Rate) (now : ℕ) (o : Option Bucket) → refilled r now o ≤ r.burst
unfolding refilled
refilled-le r now none = omega arith
refilled-le r now (some b) = ground arith

mul-le : (a b c r : ℕ) → a ≤ b + c → a * r ≤ b * r + c * r
mul-le a b c zero h = omega arith
mul-le a b c (suc r) h = omega (arith, mul-le a b c r h)

pub refilled-add :
    (r : Rate) (now later : ℕ) (o : Option Bucket)
    → now ≤ later
    → refilled r later o ≤ refilled r now o + (later - now) * r.rate
unfolding refilled
refilled-add r now later none h = omega arith
refilled-add r now later (some b) h =
    let more = mul-le (later - b.last) (now - b.last) (later - now) r.rate (omega arith) in
    elim (Bool-cases (b.last == 0)) [
      | inl fresh ↦ rw fresh (omega arith)
      | inr used ↦ rw used (omega (arith, more))
    ]

refilled-old :
    (r : Rate) (now : ℕ) (b : Bucket)
    → IsSlow r
    → is_old now b ≡ true
    → r.burst ≤ refilled r now (some b)
unfolding refilled
refilled-old r now b slow old =
    let long : half_hour ≤ now - b.last + 0 = ground (arith, old) in
    let more = mul-le half_hour (now - b.last) 0 r.rate long in
    elim (Bool-cases (b.last == 0)) [
      | inl fresh ↦ rw fresh (omega arith)
      | inr used ↦ rw used (omega (arith, more, slow))
    ]

drop_old-none :
    (now : ℕ) (key : String) (m : Map Bucket)
    → lookup key m ≡ none
    → lookup key (drop_old now m) ≡ none
unfolding drop_old lookup
drop_old-none now key [] = λ h. refl
drop_old-none now key ((k, b) ∷ m) = elim (Bool-cases (str_eq k key)) [
  | inl same ↦ rw same λ h. cc h
  | inr other ↦ rw other λ h. elim (Bool-cases (is_old now b)) [
    | inl old ↦ rw old (drop_old-none now key m h)
    | inr young ↦ rw (young, other) (drop_old-none now key m h)
  ]
]

-- A stale bucket is full, so the key has no more without it.
drop_old-level :
    (r : Rate) (now : ℕ) (key : String) (m : Map Bucket)
    → IsSlow r
    → Distinct m
    → level r now key (drop_old now m) ≤ level r now key m
unfolding drop_old lookup
drop_old-level r now key [] slow d = omega arith
drop_old-level r now key ((k, b) ∷ m) slow d = elim (Bool-cases (str_eq k key)) [
  | inl same ↦ elim (Bool-cases (is_old now b)) [
    | inl old ↦
        rw (same, old)
          (let gone =
              drop_old-none now key m
                (subst (λ i. lookup i m ≡ none) ((eq_iff k key).0 same) d.0) in
            let full = refilled-old r now b slow old in
            let most = refilled-le r now (lookup key (drop_old now m)) in omega (arith, most, full))
    | inr young ↦ rw (young, same) (omega arith)
  ]
  | inr other ↦ elim (Bool-cases (is_old now b)) [
    | inl old ↦ rw (other, old) (drop_old-level r now key m slow d.1)
    | inr young ↦ rw (young, other) (drop_old-level r now key m slow d.1)
  ]
]

drop_old-Distinct : (now : ℕ) (m : Map Bucket) → Distinct m → Distinct (drop_old now m)
unfolding drop_old
drop_old-Distinct now [] d = tt
drop_old-Distinct now ((k, b) ∷ m) d = elim (Bool-cases (is_old now b)) [
  | inl old ↦ rw old (drop_old-Distinct now m d.1)
  | inr young ↦ rw young (drop_old-none now k m d.0, drop_old-Distinct now m d.1)
]

-- The level of a key after a request of another, or of its own.
insert-level :
    (r : Rate) (now : ℕ) (key other : String) (b : Bucket) (m : Map Bucket)
    → level r now other (insert key b m)
      ≡ (if str_eq key other then refilled r now (some b) else level r now other m)
insert-level r now key other b m =
    ap (refilled r now) (lookup-insert key other b m) ∙ split (str_eq key other)
  where
    split :
        (c : Bool)
        → refilled r now (if c then some b else lookup other m)
          ≡ (if c then refilled r now (some b) else level r now other m)
    split true = refl
    split false = refl

-- What a request takes from the level of a key: a token from its own key where it is allowed, and
-- nothing else.
unfoldable pub taken : Rate → String → String → Bool → ℕ
taken r key other allowed = if allowed then (if str_eq key other then r.one else 0) else 0

-- A bucket that was just written has what it holds.
settled :
    (r : Rate) (now tokens : ℕ) → 0 < now → refilled r now (some (bucket_of tokens now)) ≤ tokens
unfolding refilled
settled r now tokens h =
    let later : (now == 0) ≡ false = ground (arith, h) in
    let none_yet : now - now ≡ 0 = omega arith in rw (later, none_yet) (omega arith)

insert-level-le :
    (r : Rate) (now : ℕ) (key other : String) (tokens cost : ℕ) (m : Map Bucket)
    → 0 < now
    → tokens + cost ≤ level r now key m
    → level r now other (insert key (bucket_of tokens now) m)
        + (if str_eq key other then cost else 0)
      ≤ level r now other m
insert-level-le r now key other tokens cost m later paid = elim (Bool-cases (str_eq key other)) [
  | inl same ↦
      let e : key ≡ other = (eq_iff key other).0 same in
      let here = insert-level r now key other (bucket_of tokens now) m in
      let at : level r now other (insert key (bucket_of tokens now) m)
          ≡ refilled r now (some (bucket_of tokens now)) =
        here ∙ rw same refl in
      rw same (
        omega (
          arith,
          at,
          settled r now tokens later,
          subst (λ k. tokens + cost ≤ level r now k m) e paid,
        ))
  | inr apart ↦
      let here = insert-level r now key other (bucket_of tokens now) m in
      let at : level r now other (insert key (bucket_of tokens now) m) ≡ level r now other m =
        here ∙ rw apart refl in
      rw apart (omega (arith, at))
]

pub allow-level :
    (r : Rate) (now : ℕ) (key other : String) (m : Map Bucket)
    → 0 < now
    → IsSlow r
    → Distinct m
    → level r now other (allow r now key m).1 + taken r key other (allow r now key m).0
      ≤ level r now other m
unfolding allow taken
allow-level r now key other m later slow d =
    let tokens = refilled r now (lookup key m) in
    elim (Bool-cases (ltb tokens r.one)) [
      | inl empty ↦
          rw (empty, allow)
            (let same = insert-level-le r now key other tokens 0 m later (omega arith) in
              omega (arith, same))
      | inr enough ↦
          let paid =
            insert-level-le r now key other (tokens - r.one) r.one m later
              (ground (arith, enough)) in
          let m' = insert key (bucket_of (tokens - r.one) now) m in
          elim (Bool-cases (ltb 4096 (length m'))) [
            | inr few ↦ rw (enough, few, allow) paid
            | inl many ↦
                rw (enough, many, allow)
                  (let dropped =
                      drop_old-level r now other m' slow
                        (insert-Distinct key (bucket_of (tokens - r.one) now) m d) in
                    omega (arith, paid, dropped))
          ]
    ]

pub allow-Distinct :
    (r : Rate) (now : ℕ) (key : String) (m : Map Bucket)
    → Distinct m
    → Distinct (allow r now key m).1
unfolding allow
allow-Distinct r now key m d = elim (Bool-cases (ltb (refilled r now (lookup key m)) r.one)) [
  | inl empty ↦
      rw (empty, allow) (insert-Distinct key (bucket_of (refilled r now (lookup key m)) now) m d)
  | inr enough ↦
      let b = bucket_of (refilled r now (lookup key m) - r.one) now in
      let d' = insert-Distinct key b m d in
      elim (Bool-cases (ltb 4096 (length (insert key b m)))) [
        | inl many ↦ rw (enough, many, allow) (drop_old-Distinct now (insert key b m) d')
        | inr few ↦ rw (enough, few, allow) d'
      ]
]
