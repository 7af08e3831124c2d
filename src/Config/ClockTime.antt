-- ===== src/Config/ClockTime.antt =====
-- internal/config/config.go: ParseHourMinute. A byte beyond ASCII belongs to a rune that is no digit.
pub mod RoundTrip
use vps_safe_dashboard.Prelude.{
  ℕ, Bool, ◌||◌, List, [], ◌∷◌, Bytes, Option, none, some, ltb, ◌==◌, if◌then◌else◌,
}
use vps_safe_dashboard.Text.{dec_value}

abbrev pub in_range_time : Option ℕ → Option ℕ → Option (ℕ × ℕ)
in_range_time (some h) (some m) = if ltb 23 h || ltb 59 m then none else some (h, m)
in_range_time _ _ = none

unfoldable pub parse_hour_minute : Bytes → Option (ℕ × ℕ)
unfolding dec_value
parse_hour_minute (a ∷ b ∷ c ∷ d ∷ e ∷ []) =
    if c == b':' then in_range_time (dec_value 0 (a ∷ b ∷ [])) (dec_value 0 (d ∷ e ∷ [])) else none
parse_hour_minute s = none
