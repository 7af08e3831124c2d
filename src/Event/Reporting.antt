-- ===== src/Event/Reporting.antt =====
-- What the reporting of events promises: a full channel never blocks and loses nothing that it
-- holds, and a rate limiter lets at most one report through in each period.
use native.Mathlib.Nat.{mul-le-mul_right}
use vps_safe_dashboard.Prelude.{
  ℕ, ◌+◌, ◌-◌, ◌*◌, ◌/◌, ◌≤◌, ◌<◌, ◌≡◌, List, [], ◌∷◌, Option, none, some, ltb, length,
  length-append, All, arith, Bool-cases, inl, inr,
}
use vps_safe_dashboard.Event.{
  Source, Level, SystemEvent, Chan, try_send, report_sys, RateLimiter, report, max_duration, since,
}

abbrev pub IsWithin : {A : Type 0} → Chan A → Type 0
IsWithin ch = length ch.queue ≤ ch.capacity

-- A send that does not block keeps a channel that is within its capacity within it.
pub try_send-IsWithin :
    {A : Type 0} (ch : Chan A) (v : A) → IsWithin ch → IsWithin (try_send ch v).0
unfolding try_send
try_send-IsWithin ch v h = ground (arith, length-append ch.queue (v ∷ []))

-- How many events wait in a channel that may be nil.
abbrev pub waiting : {A : Type 0} → Option (Chan A) → ℕ
waiting none = 0
waiting (some ch) = length ch.queue

report_sys_waiting :
    {M : Type 0} (now : ℕ) (source : Source) (level : Level) (m : M)
    (sys : Option (Chan (SystemEvent M)))
    → waiting (report_sys now source level m sys) ≤ waiting sys + 1
unfolding report_sys
report_sys_waiting now source level m none = omega arith
report_sys_waiting now source level m (some ch) = ground (
  arith,
  length-append ch.queue
      (record { ts = now / 1000000000; source = source; level = level; message = m } ∷ []),
)

-- A call of Report: its three readings of the clock, and its message.
pub record Call (M : Type 0) : Type 0 where
  pub t1 : ℕ
  pub t2 : ℕ
  pub t3 : ℕ
  pub source : Source
  pub level : Level
  pub message : M

abbrev pub State : Type 0 → Type 0
State M = RateLimiter × Option (Chan (SystemEvent M))

unfoldable pub report_all : {M : Type 0} → State M → List (Call M) → State M
report_all s [] = s
report_all s (c ∷ cs) = report_all (report c.t1 c.t2 c.t3 c.source c.level c.message s) cs

rate_step :
    (w w' limit last t1 t2 : ℕ)
    → w' ≤ w + 1
    → limit ≤ t1 - last
    → 0 < limit
    → t1 ≤ t2
    → w' * limit + last ≤ w * limit + t2
rate_step w w' limit last t1 t2 h k l m = omega (arith, mul-le-mul_right limit h)

module _ {M : Type 0} (limit : ℕ) (positive : 0 < limit) (fits : limit ≤ max_duration) where
  report_step :
      (s : State M) (c : Call M)
      → s.0.limit ≡ limit
      → c.t1 ≤ c.t2
      → (waiting (report c.t1 c.t2 c.t3 c.source c.level c.message s).1 * limit + s.0.last
          ≤ waiting s.1 * limit + (report c.t1 c.t2 c.t3 c.source c.level c.message s).0.last)
        × ((report c.t1 c.t2 c.t3 c.source c.level c.message s).0.limit ≡ limit)
  unfolding report
  report_step (r, sys) c e k = elim (Bool-cases (ltb (since c.t1 r.last) r.limit)) [
    | inl early ↦ rw early (omega arith)
    | inr late ↦ rw late (
      rate_step (waiting sys) _ limit r.last c.t1 c.t2
          (report_sys_waiting c.t3 c.source c.level c.message sys) (ground arith) positive k,
      e,
    )
  ]

  -- Over any calls of Report, on a limiter with a positive limit that a Duration can hold, where in each
  -- call the clock does not go back between the two readings: the events that are sent, times the
  -- limit, are at most the time by which `last` has moved on.
  pub report_all_rate :
      (s : State M) (cs : List (Call M))
      → s.0.limit ≡ limit
      → All (λ c. c.t1 ≤ c.t2) cs
      → waiting (report_all s cs).1 * limit + s.0.last
        ≤ waiting s.1 * limit + (report_all s cs).0.last
  unfolding report_all
  report_all_rate s [] e k = omega arith
  report_all_rate s (c ∷ cs) e (k, ks) =
      let s' : State M = report c.t1 c.t2 c.t3 c.source c.level c.message s in
      let (step, same) = report_step s c e k in omega (arith, report_all_rate s' cs same ks)
