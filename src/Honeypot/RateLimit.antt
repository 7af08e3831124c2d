-- ===== src/Honeypot/RateLimit.antt =====
-- internal/honeypot/ratelimit.go: the limit on the connections of each source address in a window.
-- The map's buckets are shared by pointer, and a write through the pointer is a write into the map.
pub mod Bounded
pub mod Window
pub mod Overflow
use vps_safe_dashboard.Prelude.{
  ℕ, ◌+◌, ◌%◌, ◌^◌, Bool, true, false, ◌||◌, List, [], ◌∷◌, Option, none, some, ltb, leb, ◌==◌,
  if◌then◌else◌, length, nat_eq,
}
use vps_safe_dashboard.Prelude.Assoc.{Assoc, lookup, insert}

abbrev pub rate_limiter_max_buckets : ℕ
rate_limiter_max_buckets = 10000

pub record IpBucket : Type 0 where
  pub count : ℕ
  pub reset : ℕ

-- Addresses are uint32. `calls` is the bit pattern of an int.
pub record IpRateLimiter : Type 0 where
  pub limit : ℕ
  pub window : ℕ
  pub buckets : Assoc ℕ IpBucket
  pub calls : ℕ

abbrev pub new_ip_rate_limiter : ℕ → ℕ → IpRateLimiter
new_ip_rate_limiter limit window = record {
  limit = limit;
  window = window;
  buckets = [];
  calls = 0;
}

-- now.After(b.reset)
abbrev pub expired : ℕ → IpBucket → Bool
expired now b = ltb b.reset now

unfoldable pub live_buckets : ℕ → Assoc ℕ IpBucket → Assoc ℕ IpBucket
live_buckets now [] = []
live_buckets now ((ip, b) ∷ m) =
    let rest = live_buckets now m in if expired now b then rest else (ip, b) ∷ rest

unfoldable pub sweep : ℕ → IpRateLimiter → IpRateLimiter
sweep now r =
    let live = live_buckets now r.buckets in
    record r { buckets = if ltb rate_limiter_max_buckets (length live) then [] else live }

-- The bucket that `allow` counts in: a new one where there is none, and the old one emptied where
-- its window is over.
unfoldable pub current : ℕ → ℕ → Option IpBucket → IpBucket
current now window none = record { count = 0; reset = now + window }
current now window (some b) =
    if expired now b then record b { count = 0; reset = now + window } else b

abbrev pub needs_sweep : IpRateLimiter → Bool
needs_sweep r = (r.calls % 1024 == 0) || ltb rate_limiter_max_buckets (length r.buckets)

unfoldable pub count_call : ℕ → IpBucket → IpRateLimiter → IpRateLimiter
count_call ip b r = record r {
  buckets = insert ip (record b { count = b.count + 1 }) r.buckets;
  calls = (r.calls + 1) % 2 ^ 64;
}

unfoldable pub maybe_sweep : ℕ → IpRateLimiter → IpRateLimiter
maybe_sweep now r = if needs_sweep r then sweep now r else r

unfoldable pub allow : ℕ → ℕ → IpRateLimiter → IpRateLimiter × Bool
allow now ip r =
    let b = current now r.window (lookup ip r.buckets) in
    if leb r.limit b.count
    then (record r { buckets = insert ip b r.buckets }, false)
    else (maybe_sweep now (count_call ip b r), true)

-- A sequence of connections: when each comes, and from where.
abbrev pub Arrival : Type 0
Arrival = ℕ × ℕ

unfoldable pub allow_all : List Arrival → IpRateLimiter → IpRateLimiter
allow_all [] r = r
allow_all ((now, ip) ∷ cs) r = allow_all cs (allow now ip r).0
