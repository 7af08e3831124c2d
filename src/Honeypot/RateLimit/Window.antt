-- ===== src/Honeypot/RateLimit/Window.antt =====
-- Within a window an address gets exactly its share of connections, whatever other addresses do and
-- whatever is swept, as long as the map is not so full that it is emptied whole.
use vps_safe_dashboard.Prelude.{
  ℕ, ◌+◌, ◌-◌, ◌≤◌, ◌<◌, ◌≡◌, refl, ◌∙◌, false, ◌&&◌, Bool-cases, inl, inr, List, [], ◌∷◌, some,
  ltb, leb, ◌==◌, ==_iff, if◌then◌else◌, length, min, nat_eq, All, arith,
}
use vps_safe_dashboard.Prelude.Assoc.{Assoc, lookup, lookup-insert, length-insert}
use vps_safe_dashboard.Honeypot.RateLimit.{
  IpBucket, IpRateLimiter, Arrival, rate_limiter_max_buckets, live_buckets, sweep, current, allow,
  count_call, maybe_sweep,
}
use vps_safe_dashboard.Honeypot.RateLimit.Bounded.{limit-maybe_sweep}

length-live_buckets : (now : ℕ) (m : Assoc ℕ IpBucket) → length (live_buckets now m) ≤ length m
unfolding live_buckets
length-live_buckets now [] = omega arith
length-live_buckets now ((ip, b) ∷ m) = ground (arith, length-live_buckets now m)

lookup-live_buckets :
    (now ip : ℕ) (b : IpBucket) (m : Assoc ℕ IpBucket)
    → now ≤ b.reset
    → lookup ip m ≡ some b
    → lookup ip (live_buckets now m) ≡ some b
unfolding live_buckets lookup
lookup-live_buckets now ip b [] h e = cc
lookup-live_buckets now ip b ((j, c) ∷ m) h e = ground (arith, lookup-live_buckets now ip b m)

module _ (now ip : ℕ) (b : IpBucket) (h : now ≤ b.reset) where
  lookup-maybe_sweep :
      (r : IpRateLimiter)
      → length r.buckets ≤ rate_limiter_max_buckets
      → lookup ip r.buckets ≡ some b
      → lookup ip (maybe_sweep now r).buckets ≡ some b
  unfolding maybe_sweep sweep
  lookup-maybe_sweep r few e =
      ground (arith, lookup-live_buckets now ip b r.buckets, length-live_buckets now r.buckets)

length-maybe_sweep :
    (now : ℕ) (r : IpRateLimiter) → length (maybe_sweep now r).buckets ≤ length r.buckets
unfolding maybe_sweep sweep
length-maybe_sweep now r = ground (arith, length-live_buckets now r.buckets)

length-count_call :
    (j : ℕ) (b : IpBucket) (r : IpRateLimiter)
    → length (count_call j b r).buckets ≤ length r.buckets + 1
unfolding count_call
length-count_call j b r = length-insert j _ r.buckets

limit-count_call : (j : ℕ) (b : IpBucket) (r : IpRateLimiter) → (count_call j b r).limit ≡ r.limit
unfolding count_call
limit-count_call j b r = refl

-- What one connection does to the limiter, from the bucket that it is counted in.
record Effect (now j : ℕ) (r : IpRateLimiter) (b : IpBucket) : Type 0 where
  limit_kept : (allow now j r).0.limit ≡ r.limit
  grows_by_one : length (allow now j r).0.buckets ≤ length r.buckets + 1
  decides : (allow now j r).1 ≡ ltb b.count r.limit

allow-Effect :
    (now j : ℕ) (r : IpRateLimiter) → Effect now j r (current now r.window (lookup j r.buckets))
unfolding allow
allow-Effect now j r =
    let b : IpBucket = current now r.window (lookup j r.buckets) in
    elim (Bool-cases (leb r.limit b.count)) [
      | inl refused ↦ record {
        limit_kept = rw refused;
        grows_by_one = rw refused (length-insert j b r.buckets);
        decides = rw refused (ground arith);
      }
      | inr granted ↦ record {
        limit_kept = rw granted (limit-maybe_sweep now (count_call j b r) ∙ limit-count_call j b r);
        grows_by_one =
            rw granted
              (omega (arith, length-maybe_sweep now (count_call j b r), length-count_call j b r));
        decides = rw granted (ground arith);
      }
    ]

-- The bucket of `ip` after a connection of `j`.
abbrev counted : ℕ → ℕ → IpBucket → ℕ → IpBucket
counted j ip b limit =
    if (j == ip) && ltb b.count limit then record b { count = b.count + 1 } else b

current_live : (now window : ℕ) (b : IpBucket) → now ≤ b.reset → current now window (some b) ≡ b
unfolding current
current_live now window b h = ground arith

module _ (now j ip : ℕ) (r : IpRateLimiter) (b : IpBucket) (h : now ≤ b.reset)
    (few : length r.buckets < rate_limiter_max_buckets) (e : lookup ip r.buckets ≡ some b) where
  lookup-count_call_self :
      lookup ip (count_call ip b r).buckets ≡ some (record b { count = b.count + 1 })
  unfolding count_call
  lookup-count_call_self = rw lookup-insert (ground arith)

  lookup-count_call_other :
      (c : IpBucket) → (j == ip) ≡ false → lookup ip (count_call j c r).buckets ≡ some b
  unfolding count_call
  lookup-count_call_other c ne = rw lookup-insert (rw ne e)

  lookup-allow_self : lookup ip (allow now ip r).0.buckets ≡ some (counted ip ip b r.limit)
  unfolding allow
  lookup-allow_self =
      rw (e, current_live now r.window b h)
        (elim (Bool-cases (leb r.limit b.count)) [
          | inl refused ↦ rw refused (rw lookup-insert (ground arith))
          | inr granted ↦ rw granted (
              lookup-maybe_sweep now ip (record b { count = b.count + 1 }) h (count_call ip b r)
                (omega (arith, length-count_call ip b r)) lookup-count_call_self
              ∙ ground arith)
        ])

  lookup-allow_other : (j == ip) ≡ false → lookup ip (allow now j r).0.buckets ≡ some b
  unfolding allow
  lookup-allow_other ne =
      let c : IpBucket = current now r.window (lookup j r.buckets) in
      elim (Bool-cases (leb r.limit c.count)) [
        | inl refused ↦ rw refused (rw lookup-insert (rw ne e))
        | inr granted ↦ rw granted (
            lookup-maybe_sweep now ip b h (count_call j c r)
              (omega (arith, length-count_call j c r)) (lookup-count_call_other c ne))
      ]

-- How many connections of `ip` are among the arrivals, and how many of them are let in.
abbrev pub attempts : ℕ → List Arrival → ℕ
attempts ip [] = 0
attempts ip ((now, j) ∷ cs) = (if j == ip then 1 else 0) + attempts ip cs

unfoldable pub let_in : ℕ → IpRateLimiter → List Arrival → ℕ
let_in ip r [] = 0
let_in ip r ((now, j) ∷ cs) =
    (if (j == ip) && (allow now j r).1 then 1 else 0) + let_in ip (allow now j r).0 cs

module _ (now ip : ℕ) (r : IpRateLimiter) (b : IpBucket) (cs : List Arrival) (h : now ≤ b.reset)
    (e : lookup ip r.buckets ≡ some b) where
  decides_self : (allow now ip r).1 ≡ ltb b.count r.limit
  decides_self =
      let d : (allow now ip r).1 ≡ ltb (current now r.window (lookup ip r.buckets)).count r.limit =
        (allow-Effect now ip r).decides in
      rw (e, current_live now r.window b h) at d

  -- The step of the induction at a connection of the address itself.
  let_in_self :
      (n : ℕ)
      → n ≡ min (attempts ip cs) (r.limit - (counted ip ip b r.limit).count)
      → (if (ip == ip) && (allow now ip r).1 then 1 else 0) + n
        ≡ min ((if ip == ip then 1 else 0) + attempts ip cs) (r.limit - b.count)
  let_in_self n ih = rw decides_self (ground arith)

  reset-counted : (counted ip ip b r.limit).reset ≡ b.reset
  reset-counted = ground arith

-- The claim for the arrivals that are left, for whatever bucket the address has.
abbrev LaterExact : ℕ → IpRateLimiter → List Arrival → Type 0
LaterExact ip r cs =
    (c : IpBucket)
    → lookup ip r.buckets ≡ some c
    → All (λ a. a.0 ≤ c.reset) cs
    → let_in ip r cs ≡ min (attempts ip cs) (r.limit - c.count)

module _ (now ip : ℕ) (r : IpRateLimiter) (b : IpBucket) (cs : List Arrival) (h : now ≤ b.reset)
    (few : length r.buckets < rate_limiter_max_buckets) (e : lookup ip r.buckets ≡ some b)
    (hs : All (λ a. a.0 ≤ b.reset) cs) where
  let_in_same :
      LaterExact ip (allow now ip r).0 cs
      → (if (ip == ip) && (allow now ip r).1 then 1 else 0) + let_in ip (allow now ip r).0 cs
        ≡ min ((if ip == ip then 1 else 0) + attempts ip cs) (r.limit - b.count)
  let_in_same later = let_in_self now ip r b cs h e (let_in ip (allow now ip r).0 cs) (
      later (counted ip ip b r.limit) (lookup-allow_self now ip ip r b h few e)
        (rw (reset-counted now ip r b cs h e) hs)
      ∙ rw ((allow-Effect now ip r).limit_kept))

  let_in_other :
      (j : ℕ)
      → (j == ip) ≡ false
      → LaterExact ip (allow now j r).0 cs
      → (if (j == ip) && (allow now j r).1 then 1 else 0) + let_in ip (allow now j r).0 cs
        ≡ min ((if j == ip then 1 else 0) + attempts ip cs) (r.limit - b.count)
  let_in_other j other later = rw other (
      omega (
        arith,
        (allow-Effect now j r).limit_kept,
        later b (lookup-allow_other now j ip r b h few e other) hs,
      ))

  let_in_step :
      (j : ℕ)
      → LaterExact ip (allow now j r).0 cs
      → (if (j == ip) && (allow now j r).1 then 1 else 0) + let_in ip (allow now j r).0 cs
        ≡ min ((if j == ip then 1 else 0) + attempts ip cs) (r.limit - b.count)
  let_in_step j = elim (Bool-cases (j == ip)) [
    | inl same ↦ rw ((==_iff j ip).0 same) let_in_same
    | inr other ↦ let_in_other j other
  ]

-- Of connections that all come within the window of the bucket of `ip`, to a limiter whose buckets and
-- those connections together are at most 10000: as many of `ip` are let in as it has attempts, but at
-- most what is left of its share.
pub let_in_exact :
    (ip : ℕ) (b : IpBucket) (r : IpRateLimiter) (cs : List Arrival)
    → lookup ip r.buckets ≡ some b
    → All (λ c. c.0 ≤ b.reset) cs
    → length r.buckets + length cs ≤ rate_limiter_max_buckets
    → let_in ip r cs ≡ min (attempts ip cs) (r.limit - b.count)
unfolding let_in
let_in_exact ip b r [] e within few = omega arith
let_in_exact ip b r ((now, j) ∷ cs) e (h, hs) few =
    let_in_step now ip r b cs h (omega arith) e hs j λ c l a.
      let_in_exact ip c (allow now j r).0 cs l a
        (omega (arith, (allow-Effect now j r).grows_by_one))
