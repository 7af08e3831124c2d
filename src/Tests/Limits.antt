-- ===== src/Tests/Limits.antt =====
-- internal/honeypot/ratelimit.go: the limit on connections.
use vps_safe_dashboard.Prelude.{
  ℕ, zero, suc, ◌≡◌, refl, ◌≤◌, ◌-◌, true, false, List, [], ◌∷◌, none, some, length, min, nat_eq,
  arith,
}
use vps_safe_dashboard.Prelude.Assoc.{Assoc, lookup, insert}
use vps_safe_dashboard.Honeypot.RateLimit.{
  IpBucket, IpRateLimiter, Arrival, new_ip_rate_limiter, allow, allow_all, maybe_sweep, sweep,
  live_buckets, count_call, current,
}
use vps_safe_dashboard.Honeypot.RateLimit.Bounded.{IsBounded, allow_all-IsBounded}
use vps_safe_dashboard.Honeypot.RateLimit.Window.{attempts, let_in, let_in_exact}
use vps_safe_dashboard.Honeypot.RateLimit.Overflow.{AllLive, allow_forgets}

abbrev bucket : ℕ → ℕ → IpBucket
bucket count reset = record { count = count; reset = reset }

-- Two connections a window; address 7 has one left.
abbrev limiter : IpRateLimiter
limiter = record (new_ip_rate_limiter 2 60) { buckets = (7, bucket 1 100) ∷ [] }

abbrev arrivals : List Arrival
arrivals = (50, 7) ∷ (51, 8) ∷ (60, 7) ∷ (70, 7) ∷ []

let_in-arrivals : let_in 7 limiter arrivals ≡ 1
unfolding let_in allow maybe_sweep sweep live_buckets count_call current lookup insert
let_in-arrivals = refl

let_in_example : let_in 7 limiter arrivals ≡ min (attempts 7 arrivals) (2 - 1)
let_in_example =
    let_in_exact 7 (bucket 1 100) limiter arrivals (unfold lookup in refl)
      (omega arith, (omega arith, (omega arith, (omega arith, tt)))) (omega arith)

allow_all_example : IsBounded (allow_all arrivals limiter)
allow_all_example =
    allow_all-IsBounded arrivals limiter (record { positive = omega arith; few = omega arith })

-- `n` buckets of the addresses below n, each used up and live until 100.
crowd : ℕ → Assoc ℕ IpBucket
crowd zero = []
crowd (suc n) = (n, bucket 2 100) ∷ crowd n

length-crowd : (n : ℕ) → length (crowd n) ≡ n
unfolding crowd
length-crowd zero = refl
length-crowd (suc n) = omega (arith, length-crowd n)

crowd-AllLive : (n : ℕ) → AllLive 50 (crowd n)
unfolding crowd
crowd-AllLive zero = tt
crowd-AllLive (suc n) = (omega arith, crowd-AllLive n)

lookup-crowd_new : (k n : ℕ) → n ≤ k → lookup k (crowd n) ≡ none
unfolding crowd lookup
lookup-crowd_new k zero h = refl
lookup-crowd_new k (suc n) h = ground (arith, lookup-crowd_new k n)

lookup-crowd_last : (n : ℕ) → lookup n (crowd (suc n)) ≡ some (bucket 2 100)
unfolding crowd lookup
lookup-crowd_last n = ground arith

abbrev full : IpRateLimiter
full = record (new_ip_rate_limiter 2 60) { buckets = crowd 10000 }

allow_forgets_example :
    ((allow 50 9999 full).1 ≡ false) × ((allow 50 9999 (allow 50 20000 full).0).1 ≡ true)
allow_forgets_example =
    allow_forgets 50 9999 20000 (bucket 2 100) full (omega arith) (crowd-AllLive 10000)
      (length-crowd 10000) (lookup-crowd_new 20000 10000 (omega arith)) (lookup-crowd_last 9999)
      (omega arith) (omega arith)
