-- ===== src/Honeypot/Redis/Limited.antt =====
-- How many credentials a connection leaves.
use vps_safe_dashboard.Prelude.{
  ℕ, zero, suc, ◌+◌, ◌-◌, ◌≤◌, Bool-cases, inl, inr, List, [], ◌∷◌, Bytes, Option, none, some,
  codes, ltb, list_beq, nat_eq, length, arith,
}
use vps_safe_dashboard.Text.Spaces.{upper}
use vps_safe_dashboard.Honeypot.{creds_per_conn_limit}
use vps_safe_dashboard.Honeypot.Session.{Action, Captured, records, reply_ignored, with_read}
use vps_safe_dashboard.Honeypot.Session.Limits.{Most, nothing-Most, reply_ignored-Most}
use vps_safe_dashboard.Honeypot.Redis.{
  Command, read_resp_command, record_some, auth_command, hello_command, redis_command, redis_loop,
  handle_redis,
}

-- Behind a count of n, the loop records at most what is left of the limit.
abbrev Left : (ℕ → ℕ → List Action) → Type 0
Left next = (w n : ℕ) → Most (10 - n) (next w n)

more-Left :
    (n : ℕ) (b : Bytes) (w : ℕ) (next : ℕ → ℕ → List Action)
    → Left next
    → Most (10 - n) (reply_ignored b w (λ w'. next w' n))
more-Left n b w next h = reply_ignored-Most (10 - n) b w (λ w'. next w' n) (λ w'. h w' n)

record_some-Most :
    (n : ℕ) (c : Captured) (b : Bytes) (w : ℕ) (next : ℕ → ℕ → List Action)
    → Left next
    → Most (10 - n) (record_some n c (reply_ignored b w (λ w'. next w' (n + 1))))
unfolding records
record_some-Most n c b w next h = elim (Bool-cases (ltb n 10)) [
  | inl e ↦ rw e (ground (arith, more-Left (n + 1) b w next h))
  | inr e ↦ rw e (ground (arith, more-Left (n + 1) b w next h))
]

auth-Most :
    (args : List Bytes) (w n : ℕ) (next : ℕ → ℕ → List Action)
    → Left next
    → Most (10 - n) (auth_command args w n next)
unfolding auth_command
auth-Most [] w n next h = more-Left n _ w next h
auth-Most (pass ∷ []) w n next h = record_some-Most n _ _ w next h
auth-Most (user ∷ pass ∷ []) w n next h = record_some-Most n _ _ w next h
auth-Most (user ∷ pass ∷ more ∷ args) w n next h = more-Left n _ w next h

hello-Most :
    (args : List Bytes) (w n : ℕ) (next : ℕ → ℕ → List Action)
    → Left next
    → Most (10 - n) (hello_command args w n next)
unfolding hello_command
hello-Most (version ∷ word ∷ user ∷ pass ∷ more) w n next h =
    elim (Bool-cases (list_beq nat_eq (upper word) (codes "AUTH"))) [
      | inl e ↦ rw e (record_some-Most n _ _ w next h)
      | inr e ↦ rw e (more-Left n _ w next h)
    ]
hello-Most [] w n next h = more-Left n _ w next h
hello-Most (a ∷ []) w n next h = more-Left n _ w next h
hello-Most (a ∷ b ∷ []) w n next h = more-Left n _ w next h
hello-Most (a ∷ b ∷ c ∷ []) w n next h = more-Left n _ w next h

redis_command-Most :
    (c : Command) (w n : ℕ) (next : ℕ → ℕ → List Action)
    → Left next
    → Most (10 - n) (redis_command c w n next)
unfolding redis_command
redis_command-Most (cmd, args) w n next h = elim (Bool-cases (list_beq nat_eq cmd (codes "AUTH"))) [
  | inl e ↦ rw e (auth-Most args w n next h)
  | inr e ↦ elim (Bool-cases (list_beq nat_eq cmd (codes "HELLO"))) [
    | inl e' ↦ rw (e, e') (hello-Most args w n next h)
    | inr e' ↦ elim (Bool-cases (list_beq nat_eq cmd (codes "QUIT"))) [
      | inl q ↦
          rw (e, e', q) (reply_ignored-Most (10 - n) _ w (λ w'. []) (λ w'. nothing-Most (10 - n)))
      | inr q ↦ rw (e, e', q) (more-Left n _ w next h)
    ]
  ]
]

read-Most :
    (f : ℕ) (o : Option (Command × Bytes)) (w n : ℕ)
    → ((rest : Bytes) → Left (λ w' n'. redis_loop f w' n' rest))
    → Most (10 - n) (with_read o (λ c rest. redis_command c w n (λ w' n'. redis_loop f w' n' rest)))
read-Most f none w n h = unfold records in omega arith
read-Most f (some (c, rest)) w n h =
    redis_command-Most c w n (λ w' n'. redis_loop f w' n' rest) (h rest)

redis_loop-Most : (f : ℕ) (input : Bytes) → Left (λ w n. redis_loop f w n input)
unfolding redis_loop
redis_loop-Most zero input w n = unfold records in omega arith
redis_loop-Most (suc f) input w n = read-Most f (read_resp_command input) w n (redis_loop-Most f)

-- Whatever a client sends, and however many writes succeed, a connection to the Redis service records at
-- most ten credentials.
pub length-handle_redis :
    (w : ℕ) (input : Bytes) → length (records (handle_redis w input)) ≤ creds_per_conn_limit
unfolding handle_redis
length-handle_redis w input = redis_loop-Most (suc (length input)) input w 0
