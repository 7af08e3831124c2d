-- ===== src/Honeypot/RateLimit/Bounded.antt =====
-- The limiter's memory is bounded: at no time has it more than `rate_limiter_max_buckets` buckets.
use vps_safe_dashboard.Prelude.{
  ℕ, ◌≤◌, ◌<◌, ◌≡◌, refl, true, Bool-cases, inl, inr, List, [], ◌∷◌, Option, none, some, leb,
  length, nat_eq, arith,
}
use vps_safe_dashboard.Prelude.Assoc.{Assoc, lookup, insert, length-insert_old}
use vps_safe_dashboard.Honeypot.RateLimit.{
  IpBucket, IpRateLimiter, Arrival, rate_limiter_max_buckets, sweep, current, allow, allow_all,
  count_call, maybe_sweep,
}

pub record IsBounded (r : IpRateLimiter) : Type 0 where
  pub positive : 0 < r.limit
  pub few : length r.buckets ≤ rate_limiter_max_buckets

length-sweep-le :
    (now : ℕ) (r : IpRateLimiter) → length (sweep now r).buckets ≤ rate_limiter_max_buckets
unfolding sweep
length-sweep-le now r = ground arith

length-maybe_sweep-le :
    (now : ℕ) (r : IpRateLimiter) → length (maybe_sweep now r).buckets ≤ rate_limiter_max_buckets
unfolding maybe_sweep
length-maybe_sweep-le now r = ground (arith, length-sweep-le now r)

pub limit-maybe_sweep : (now : ℕ) (r : IpRateLimiter) → (maybe_sweep now r).limit ≡ r.limit
unfolding maybe_sweep sweep
limit-maybe_sweep now r = ground arith

-- A new or emptied bucket has room, so a refusal is counted in a bucket that is in the map.
length-refused :
    (now ip window limit : ℕ) (m : Assoc ℕ IpBucket) (o : Option IpBucket)
    → lookup ip m ≡ o
    → 0 < limit
    → leb limit (current now window o).count ≡ true
    → length (insert ip (current now window o) m) ≡ length m
unfolding current
length-refused now ip window limit m none e h k = absurd (ground arith)
length-refused now ip window limit m (some b) e h k = length-insert_old ip _ b m e

pub allow-IsBounded : (now ip : ℕ) (r : IpRateLimiter) → IsBounded r → IsBounded (allow now ip r).0
unfolding allow
allow-IsBounded now ip r v =
    let b : IpBucket = current now r.window (lookup ip r.buckets) in
    elim (Bool-cases (leb r.limit b.count)) [
      | inl refused ↦ rw refused (record {
        positive = v.positive;
        few =
            rw
              (length-refused now ip r.window r.limit r.buckets (lookup ip r.buckets) refl
                v.positive refused)
              v.few;
      })
      | inr granted ↦ rw granted (record {
        positive = rw (limit-maybe_sweep now (count_call ip b r)) (unfold count_call in v.positive);
        few = length-maybe_sweep-le now (count_call ip b r);
      })
    ]

-- From a limiter with a positive limit and at most 10000 buckets on, whatever connections come, it
-- has at most 10000 buckets.
pub allow_all-IsBounded :
    (cs : List Arrival) (r : IpRateLimiter) → IsBounded r → IsBounded (allow_all cs r)
unfolding allow_all
allow_all-IsBounded [] r v = v
allow_all-IsBounded ((now, ip) ∷ cs) r v =
    allow_all-IsBounded cs (allow now ip r).0 (allow-IsBounded now ip r v)
