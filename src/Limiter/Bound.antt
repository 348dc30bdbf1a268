-- ===== src/Limiter/Bound.antt =====
-- How many requests internal/controlplane/limiter.go lets through.
use open_remote_commander.Prelude.{
  ℕ, zero, suc, ◌+◌, ◌-◌, ◌*◌, ◌<◌, ◌≤◌, ◌≡◌, String, Bool, true, false, ◌&&◌, List, [], ◌∷◌, arith,
  Map, str_eq, if◌then◌else◌, Distinct, Bool-cases, inl, inr, lookup,
}
use open_remote_commander.Limiter.{Rate, Bucket, allow}
use open_remote_commander.Limiter.Levels.{
  level, IsSlow, refilled-le, refilled-add, taken, allow-level, allow-Distinct,
}

pub record Request : Type 0 where
  pub now : ℕ
  pub key : String

-- The times do not go back.
abbrev pub Rising : ℕ → List Request → Type 0
Rising t [] = Unit
Rising t (q ∷ qs) = (t ≤ q.now) × Rising q.now qs

abbrev pub end_time : ℕ → List Request → ℕ
end_time t [] = t
end_time t (q ∷ qs) = end_time q.now qs

-- The requests of a key that are let through.
unfoldable pub count : Rate → String → List Request → Map Bucket → ℕ
count r key [] m = 0
count r key (q ∷ qs) m =
    (if (allow r q.now q.key m).0 && str_eq q.key key then 1 else 0)
    + count r key qs (allow r q.now q.key m).1

end_time-le : (t : ℕ) (qs : List Request) → Rising t qs → t ≤ end_time t qs
end_time-le t [] rising = omega arith
end_time-le t (q ∷ qs) rising = omega (arith, rising.0, end_time-le q.now qs rising.1)

mul-ge : (a b c r : ℕ) → b + c ≤ a → b * r + c * r ≤ a * r
mul-ge a b c zero h = omega arith
mul-ge a b c (suc r) h = omega (arith, mul-ge a b c r h)

taken_lem :
    (r : Rate) (a b : String) (n : ℕ) (ok_ : Bool)
    → ((if ok_ && str_eq a b then 1 else 0) + n) * r.one ≡ taken r a b ok_ + n * r.one
unfolding taken
taken_lem r a b n true = elim (Bool-cases (str_eq a b)) [
  | inl same ↦ rw same (omega arith)
  | inr other ↦ rw other (omega arith)
]
taken_lem r a b n false = omega arith

count-le-level :
    (r : Rate) (key : String) (t : ℕ) (qs : List Request) (m : Map Bucket)
    → 0 < t
    → Rising t qs
    → IsSlow r
    → Distinct m
    → count r key qs m * r.one ≤ level r t key m + (end_time t qs - t) * r.rate
unfolding count
count-le-level r key t [] m start rising slow d = omega arith
count-le-level r key t (q ∷ qs) m start rising slow d =
    let next = (allow r q.now q.key m).1 in
    omega (
      arith,
      refilled-add r t q.now (lookup key m) rising.0,
      allow-level r q.now q.key key m (omega (arith, rising.0)) slow d,
      count-le-level r key q.now qs next (omega (arith, rising.0)) rising.1 slow
          (allow-Distinct r q.now q.key m d),
      taken_lem r q.key key (count r key qs next) (allow r q.now q.key m).0,
      mul-ge (end_time q.now qs - t) (q.now - t) (end_time q.now qs - q.now) r.rate
          (omega (arith, rising.0, end_time-le q.now qs rising.1)),
    )

-- Of the requests of a key, as many are let through from any moment on as a full bucket and the refill
-- of the time since then pay for, whatever requests of other keys come between and whatever buckets
-- are dropped. The clock does not go back, and half an hour fills a bucket.
pub count-le-burst :
    (r : Rate) (key : String) (t : ℕ) (qs : List Request) (m : Map Bucket)
    → 0 < t
    → Rising t qs
    → IsSlow r
    → Distinct m
    → count r key qs m * r.one ≤ r.burst + (end_time t qs - t) * r.rate
count-le-burst r key t qs m start rising slow d =
    omega (arith, count-le-level r key t qs m start rising slow d, refilled-le r t (lookup key m))
