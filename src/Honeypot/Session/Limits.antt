-- ===== src/Honeypot/Session/Limits.antt =====
-- How many credentials a handler records, put together as the handlers are.
use vps_safe_dashboard.Prelude.{
  ℕ, zero, suc, ◌≤◌, Bool, true, false, List, [], ◌∷◌, Bytes, Option, none, some, if◌then◌else◌,
  length, arith,
}
use vps_safe_dashboard.Honeypot.Session.{
  Action, recorded, Captured, records, reply, reply_ignored, with_read,
}

-- At most `k` are recorded.
abbrev pub Most : ℕ → List Action → Type 0
Most k later = length (records later) ≤ k

pub nothing-Most : (k : ℕ) → Most k []
unfolding records
nothing-Most k = omega arith

pub recorded-Most :
    (k : ℕ) (c : Captured) (later : List Action) → Most k later → Most (suc k) (recorded c ∷ later)
unfolding records
recorded-Most k c later h = omega arith

pub reply-Most :
    (k : ℕ) (b : Bytes) (w : ℕ) (next : ℕ → List Action)
    → ((w' : ℕ) → Most k (next w'))
    → Most k (reply b w next)
unfolding reply records
reply-Most k b zero next h = omega arith
reply-Most k b (suc w) next h = h w

pub reply_ignored-Most :
    (k : ℕ) (b : Bytes) (w : ℕ) (next : ℕ → List Action)
    → ((w' : ℕ) → Most k (next w'))
    → Most k (reply_ignored b w next)
unfolding reply_ignored records
reply_ignored-Most k b zero next h = h zero
reply_ignored-Most k b (suc w) next h = h w

pub with_read-Most {ℓ} :
    {A : Type ℓ} (k : ℕ) (o : Option (A × Bytes)) (next : A → Bytes → List Action)
    → ((a : A) (rest : Bytes) → Most k (next a rest))
    → Most k (with_read o next)
with_read-Most k none next h = nothing-Most k
with_read-Most k (some (a, rest)) next h = h a rest

pub if-Most :
    (k : ℕ) (b : Bool) (x y : List Action) → Most k x → Most k y → Most k (if b then x else y)
if-Most k true x y h h' = h
if-Most k false x y h h' = h'

-- A credential, then an answer, and the end.
pub refused-Most :
    (c : Captured) (b : Bytes) (w : ℕ) → Most 1 (recorded c ∷ reply_ignored b w (λ w'. []))
refused-Most c b w =
    recorded-Most 0 c (reply_ignored b w (λ w'. []))
      (reply_ignored-Most 0 b w (λ w'. []) (λ w'. nothing-Most 0))
