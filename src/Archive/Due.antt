-- ===== src/Archive/Due.antt =====
-- internal/archive/archive.go: RunArchiver, one tick of its loop. The calendar of the local time zone
-- is an input: the day of the month, the deadline of a time of the day on the first of this month, and
-- the year and month that the clock shows copy_after_days earlier.
pub mod Candidates
use vps_safe_dashboard.Prelude.{
  ℕ, zero, suc, ◌+◌, ◌-◌, ◌*◌, ◌/◌, ◌%◌, Bool, true, false, not, List, [], ◌∷◌, ◌++◌, Bytes, Option,
  none, some, ltb, ◌==◌, if◌then◌else◌,
}
use vps_safe_dashboard.Text.{itoa}
use vps_safe_dashboard.Config.ClockTime.{parse_hour_minute}

pub record Tick : Type 0 where
  pub day : ℕ
  pub now : ℕ
  pub deadline : ℕ → ℕ → ℕ
  pub cutoff : ℕ × ℕ

-- The month that is i months before, as time.AddDate counts from the first of a month.
unfoldable pub months_back : ℕ → ℕ × ℕ → ℕ × ℕ
months_back i (y, m) = let n = y * 12 + (m - 1) - i in (n / 12, n % 12 + 1)

abbrev pub two_digits : ℕ → Bytes
two_digits n = (b'0' + n / 10) ∷ (b'0' + n % 10) ∷ []

abbrev pub four_digits : ℕ → Bytes
four_digits n = (b'0' + n / 1000) ∷ (b'0' + n / 100 % 10) ∷ two_digits (n % 100)

-- %04d-%02d of a year and a month
unfoldable pub month_text : ℕ × ℕ → Bytes
month_text (y, m) = (if ltb y 10000 then four_digits y else itoa y) ++ b'-' ∷ two_digits m

unfoldable pub candidates_from : ℕ → ℕ → ℕ × ℕ → List Bytes
candidates_from i zero cutoff = []
candidates_from i (suc n) cutoff =
    month_text (months_back i cutoff) ∷ candidates_from (suc i) n cutoff

abbrev pub after_deadline : Tick → Option (ℕ × ℕ) → List Bytes
after_deadline t none = []
after_deadline t (some (hh, mm)) =
    if ltb t.now (t.deadline hh mm) then [] else candidates_from 0 24 t.cutoff

-- The months that are requested; a request that fails is passed over.
unfoldable pub requested : Bytes → Tick → List Bytes
requested monthly_hour t =
    if t.day == 1 then after_deadline t (parse_hour_minute monthly_hour) else []
