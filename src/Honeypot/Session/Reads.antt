-- ===== src/Honeypot/Session/Reads.antt =====
-- What is read of bytes that are there.
use vps_safe_dashboard.Prelude.{
  ℕ, zero, suc, ◌<◌, ◌≡◌, refl, ap, [], ◌∷◌, ◌++◌, Bytes, none, some, length, take, drop, arith,
}
use vps_safe_dashboard.Honeypot.Session.{read_full, records, reply_ignored}

pub read_full-append : (x rest : Bytes) → read_full (length x) (x ++ rest) ≡ some (x, rest)
unfolding read_full
read_full-append [] rest = refl
read_full-append (c ∷ x) rest = rw (read_full-append x rest) refl

pub read_full_all : (x : Bytes) → read_full (length x) x ≡ some (x, [])
unfolding read_full
read_full_all [] = refl
read_full_all (c ∷ x) = rw (read_full_all x) refl

pub take-append : (x y : Bytes) → take (length x) (x ++ y) ≡ x
take-append [] y = refl
take-append (c ∷ x) y = ap (◌∷◌ c) (take-append x y)

pub drop-append : (x y : Bytes) → drop (length x) (x ++ y) ≡ y
drop-append [] y = refl
drop-append (c ∷ x) y = drop-append x y

pub read_full_short : (n : ℕ) (s : Bytes) → length s < n → read_full n s ≡ none
unfolding read_full
read_full_short zero s h = absurd (omega arith)
read_full_short (suc n) [] h = refl
read_full_short (suc n) (c ∷ s) h = rw (read_full_short n s (omega arith)) refl

-- What is written and not looked after records nothing.
pub records-reply_ignored : (b : Bytes) (w : ℕ) → records (reply_ignored b w (λ w'. [])) ≡ []
unfolding records reply_ignored
records-reply_ignored b zero = refl
records-reply_ignored b (suc w) = refl
