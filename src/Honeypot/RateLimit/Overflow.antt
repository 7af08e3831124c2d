-- ===== src/Honeypot/RateLimit/Overflow.antt =====
-- Where all buckets are live and the map is full, a connection of a new address empties it: the
-- share that every other address has used up in its window is given anew.
use vps_safe_dashboard.Prelude.{
  ℕ, ◌+◌, ◌≤◌, ◌<◌, ◌≡◌, refl, ap, true, false, [], ◌∷◌, none, some, length, nat_eq, All, arith,
}
use vps_safe_dashboard.Prelude.Assoc.{Assoc, lookup, insert}
use vps_safe_dashboard.Honeypot.RateLimit.{
  IpBucket, IpRateLimiter, rate_limiter_max_buckets, live_buckets, sweep, current, allow,
  count_call, maybe_sweep,
}

abbrev pub AllLive : ℕ → Assoc ℕ IpBucket → Type 0
AllLive now m = All (λ e. now ≤ e.1.reset) m

live_buckets_all : (now : ℕ) (m : Assoc ℕ IpBucket) → AllLive now m → live_buckets now m ≡ m
unfolding live_buckets
live_buckets_all now [] h = refl
live_buckets_all now ((ip, b) ∷ m) h = ground (arith, live_buckets_all now m h.1)

length-insert_new :
    (k : ℕ) (v : IpBucket) (m : Assoc ℕ IpBucket)
    → lookup k m ≡ none
    → length (insert k v m) ≡ length m + 1
unfolding lookup insert
length-insert_new k v [] h = omega arith
length-insert_new k v ((j, w) ∷ m) h = ground (arith, length-insert_new k v m)

insert-AllLive :
    (now k : ℕ) (v : IpBucket) (m : Assoc ℕ IpBucket)
    → now ≤ v.reset
    → AllLive now m
    → AllLive now (insert k v m)
unfolding insert
insert-AllLive now k v [] h l = (h, tt)
insert-AllLive now k v ((j, w) ∷ m) h l = ground (arith, insert-AllLive now k v m)

emptied :
    (now : ℕ) (r : IpRateLimiter)
    → AllLive now r.buckets
    → rate_limiter_max_buckets < length r.buckets
    → (maybe_sweep now r).buckets ≡ []
unfolding maybe_sweep sweep
emptied now r l h = ground (arith, live_buckets_all now r.buckets l)

limit-maybe_sweep' : (now : ℕ) (r : IpRateLimiter) → (maybe_sweep now r).limit ≡ r.limit
unfolding maybe_sweep sweep
limit-maybe_sweep' now r = ground arith

allow-none :
    (now ip : ℕ) (r : IpRateLimiter)
    → 0 < r.limit
    → lookup ip r.buckets ≡ none
    → (allow now ip r)
      ≡ (maybe_sweep now (count_call ip (record { count = 0; reset = now + r.window }) r), true)
unfolding allow current
allow-none now ip r h e = rw e (ground arith)

refused_used_up :
    (now ip : ℕ) (b : IpBucket) (r : IpRateLimiter)
    → lookup ip r.buckets ≡ some b
    → now ≤ b.reset
    → r.limit ≤ b.count
    → (allow now ip r).1 ≡ false
unfolding allow current
refused_used_up now ip b r e h used = rw e (ground arith)

-- The limiter after the connection of a new address to a full map.
allow_full :
    (now j : ℕ) (r : IpRateLimiter)
    → 0 < r.limit
    → AllLive now r.buckets
    → length r.buckets ≡ rate_limiter_max_buckets
    → lookup j r.buckets ≡ none
    → ((allow now j r).0.buckets ≡ []) × ((allow now j r).0.limit ≡ r.limit)
unfolding count_call
allow_full now j r pos live full new =
    let fresh : IpBucket = record { count = 0; reset = now + r.window } in
    let counted : IpBucket = record { count = 1; reset = now + r.window } in
    rw (allow-none now j r pos new) (
      emptied now (count_call j fresh r) (insert-AllLive now j counted r.buckets (omega arith) live)
          (omega (arith, length-insert_new j counted r.buckets new)),
      limit-maybe_sweep' now (count_call j fresh r),
    )

admits_empty :
    (now ip : ℕ) (r : IpRateLimiter) → 0 < r.limit → r.buckets ≡ [] → (allow now ip r).1 ≡ true
unfolding lookup
admits_empty now ip r pos e = ap (λ p. p.1) (allow-none now ip r pos (ap (lookup ip) e))

-- In a full map of live buckets, `ip` has used up its share and is refused; after one connection of the
-- new address `j`, at the same moment, it is let in.
pub allow_forgets :
    (now ip j : ℕ) (b : IpBucket) (r : IpRateLimiter)
    → 0 < r.limit
    → AllLive now r.buckets
    → length r.buckets ≡ rate_limiter_max_buckets
    → lookup j r.buckets ≡ none
    → lookup ip r.buckets ≡ some b
    → now ≤ b.reset
    → r.limit ≤ b.count
    → ((allow now ip r).1 ≡ false) × ((allow now ip (allow now j r).0).1 ≡ true)
allow_forgets now ip j b r pos live full new old h used =
    let (empty, same) = allow_full now j r pos live full new in
    (
      refused_used_up now ip b r old h used,
      admits_empty now ip (allow now j r).0 (omega (arith, same)) empty,
    )
