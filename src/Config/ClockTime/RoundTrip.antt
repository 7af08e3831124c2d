-- ===== src/Config/ClockTime/RoundTrip.antt =====
-- What is read as a time of the day is exactly what prints one.
use vps_safe_dashboard.Prelude.{
  ℕ, ◌+◌, ◌/◌, ◌%◌, ◌≤◌, ◌≡◌, ap, ◌∙◌, ◌↔◌, [], ◌∷◌, ◌++◌, Bytes, some, arith,
}
use vps_safe_dashboard.Text.{dec_value}
use vps_safe_dashboard.Config.ClockTime.{parse_hour_minute}

abbrev pub two_digits : ℕ → Bytes
two_digits n = (b'0' + n / 10) ∷ (b'0' + n % 10) ∷ []

-- HH:MM
abbrev pub print_time : ℕ → ℕ → Bytes
print_time h m = two_digits h ++ b':' ∷ two_digits m

parse_time :
    (s : Bytes) (h m : ℕ)
    → parse_hour_minute s ≡ some (h, m)
    → (s ≡ print_time h m) × (h ≤ 23) × (m ≤ 59)
unfolding parse_hour_minute dec_value
parse_time (a ∷ b ∷ c ∷ d ∷ e ∷ []) h m p = ground arith
parse_time _ h m p = cc

print_lem : (h m : ℕ) → h ≤ 23 → m ≤ 59 → parse_hour_minute (print_time h m) ≡ some (h, m)
unfolding parse_hour_minute dec_value
print_lem h m k l = ground arith

-- A text is read as the time h:m exactly if it is its print, in two digits each, and h is at most 23
-- and m at most 59.
pub parse_hour_minute_lem :
    (s : Bytes) (h m : ℕ)
    → (parse_hour_minute s ≡ some (h, m)) ↔ ((s ≡ print_time h m) × (h ≤ 23) × (m ≤ 59))
parse_hour_minute_lem s h m =
    (parse_time s h m, λ q. ap parse_hour_minute q.0 ∙ print_lem h m q.1 q.2)
