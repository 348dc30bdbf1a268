-- ===== src/Limiter/Tests.antt =====
-- Runs of internal/controlplane/limiter.go.
use open_remote_commander.Prelude.{
  ℕ, ◌+◌, ◌*◌, ◌≤◌, ◌≡◌, refl, String, List, [], ◌∷◌, arith, lookup, insert,
}
use open_remote_commander.Limiter.{Rate, refilled, allow}
use open_remote_commander.Limiter.Bound.{Request, count, count-le-burst}

-- The limit of the token requests, one in a second and at most ten at once, with a burst of two.
abbrev a_rate : Rate
a_rate = record { one = 1000000000; burst = 2000000000; rate = 1 }

abbrev at : ℕ → String → Request
at ms key = record { now = ms * 1000000; key = key }

abbrev requests : List Request
requests = at 100 "a" ∷ at 200 "a" ∷ at 300 "a" ∷ at 400 "b" ∷ at 1400 "a" ∷ []

counts_three : count a_rate "a" requests [] ≡ 3
unfolding count allow refilled insert lookup
counts_three = refl

counts_b : count a_rate "b" requests [] ≡ 1
unfolding count allow refilled insert lookup
counts_b = refl

count-le-burst_example : count a_rate "a" requests [] * 1000000000 ≤ 2000000000 + 1300000000 * 1
count-le-burst_example =
    count-le-burst a_rate "a" 100000000 requests [] (omega arith) (ground arith) (omega arith) tt
