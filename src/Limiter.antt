-- ===== src/Limiter.antt =====
-- internal/controlplane/limiter.go: a bucket of tokens for each key. Tokens are counted in such parts
-- that a nanosecond refills a whole number of them: `one` parts are a token, `burst` parts fill a
-- bucket and `rate` parts come in a nanosecond, exactly, where the code rounds in float64. A time is a
-- number of nanoseconds since Go's zero time.
pub mod Levels
pub mod Bound
pub mod Tests
use open_remote_commander.Prelude.{
  ℕ, ◌+◌, ◌-◌, ◌*◌, String, Bool, true, false, List, [], ◌∷◌, Option, none, some, Map, min, length,
  ltb, ◌==◌, if◌then◌else◌, lookup, insert,
}

pub record Rate : Type 0 where
  pub one : ℕ
  pub burst : ℕ
  pub rate : ℕ

pub record Bucket : Type 0 where
  pub tokens : ℕ
  pub last : ℕ

abbrev pub half_hour : ℕ
half_hour = 30 * 60 * 1000000000

-- b.tokens, up to the test: a full bucket where there is none.
unfoldable pub refilled : Rate → ℕ → Option Bucket → ℕ
refilled r now none = r.burst
refilled r now (some b) =
    if b.last == 0 then r.burst else min r.burst (b.tokens + (now - b.last) * r.rate)

-- old.last.Before(now - 30m)
abbrev pub is_old : ℕ → Bucket → Bool
is_old now b = ltb (b.last + half_hour) now

unfoldable pub drop_old : ℕ → Map Bucket → Map Bucket
drop_old now [] = []
drop_old now ((k, b) ∷ m) =
    let rest = drop_old now m in if is_old now b then rest else (k, b) ∷ rest

abbrev pub bucket_of : ℕ → ℕ → Bucket
bucket_of tokens last = record { tokens = tokens; last = last }

unfoldable pub allow : Rate → ℕ → String → Map Bucket → Bool × Map Bucket
allow r now key m =
    let tokens = refilled r now (lookup key m) in
    if ltb tokens r.one
    then (false, insert key (bucket_of tokens now) m)
    else (let m' = insert key (bucket_of (tokens - r.one) now) m in
        (true, if ltb 4096 (length m') then drop_old now m' else m'))
