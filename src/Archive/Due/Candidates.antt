-- ===== src/Archive/Due/Candidates.antt =====
-- The months that are requested are read back.
use vps_safe_dashboard.Prelude.{
  ℕ, zero, suc, ◌+◌, ◌-◌, ◌*◌, ◌/◌, ◌%◌, ◌≤◌, ◌<◌, ◌≡◌, refl, ap, ◌∙◌, false, Bytes, Option, some,
  ltb, lt→ltb, length, get_elem?, arith,
}
use vps_safe_dashboard.Text.{dec_value}
use vps_safe_dashboard.Config.ClockTime.{parse_hour_minute}
use vps_safe_dashboard.Archive.Months.{parse_month}
use vps_safe_dashboard.Archive.Due.{
  Tick, months_back, four_digits, two_digits, month_text, candidates_from, requested,
}

dec_two : (n : ℕ) → n < 100 → dec_value 0 (two_digits n) ≡ some n
unfolding dec_value
dec_two n h = ground arith

dec_four : (n : ℕ) → n < 10000 → dec_value 0 (four_digits n) ≡ some n
unfolding dec_value
dec_four n h = ground arith

parse_month-month_text :
    (y m : ℕ) → y < 10000 → 1 ≤ m → m ≤ 12 → parse_month (month_text (y, m)) ≡ some (y, m)
unfolding parse_month month_text
parse_month-month_text y m h k l =
    rw (lt→ltb y 10000 h, dec_four y h, dec_two m (omega arith)) (ground arith)

nth_candidate :
    (i j n : ℕ) (cutoff : ℕ × ℕ)
    → i < n
    → get_elem? (candidates_from j n cutoff) i ≡ some (month_text (months_back (j + i) cutoff))
unfolding candidates_from
nth_candidate i j zero cutoff h = absurd (omega arith)
nth_candidate zero j (suc n) cutoff h =
    ap (λ (k : ℕ). some (month_text (months_back k cutoff))) (omega arith)
nth_candidate (suc i) j (suc n) cutoff h =
    nth_candidate i (suc j) n cutoff (omega arith)
    ∙ ap (λ (k : ℕ). some (month_text (months_back k cutoff))) (omega arith)

first_candidate :
    (i n : ℕ) (cutoff : ℕ × ℕ)
    → i < n
    → get_elem? (candidates_from 0 n cutoff) i ≡ some (month_text (months_back i cutoff))
first_candidate i n cutoff h =
    nth_candidate i 0 n cutoff h
    ∙ ap (λ (k : ℕ). some (month_text (months_back k cutoff))) (omega arith)

length-candidates_from : (j n : ℕ) (cutoff : ℕ × ℕ) → length (candidates_from j n cutoff) ≡ n
unfolding candidates_from
length-candidates_from j zero cutoff = refl
length-candidates_from j (suc n) cutoff =
    ap (λ (k : ℕ). suc k) (length-candidates_from (suc j) n cutoff)

-- The i-th request is the month i months before the one of `y` and `m`.
abbrev pub IsMonthBack : ℕ → ℕ → ℕ → Option Bytes → Type 0
IsMonthBack y m i o =
    (text : Bytes) × (y' : ℕ) × (m' : ℕ) × (o ≡ some text)
    × (parse_month text ≡ some (y', m'))
    × (y' * 12 + m' + i ≡ y * 12 + m)

month_back :
    (y m i : ℕ)
    → 2 ≤ y
    → y < 10000
    → 1 ≤ m
    → m ≤ 12
    → i < 24
    → IsMonthBack y m i (some (month_text (months_back i (y, m))))
unfolding months_back
month_back y m i h k l u v =
    let n : ℕ = y * 12 + (m - 1) - i in
    (
      month_text (n / 12, n % 12 + 1),
      n / 12,
      n % 12 + 1,
      refl,
      parse_month-month_text (n / 12) (n % 12 + 1) (omega arith) (omega arith) (omega arith),
      omega arith,
    )

-- On the first of a month, from the deadline on, 24 months are requested, and where copy_after_days ago
-- was in a month of the years 2 to 9999: each text is one that ParseMonth reads, the first as that month,
-- and each further one as the month before.
pub requested_lem :
    (monthly_hour : Bytes) (t : Tick) (hh mm y m i : ℕ)
    → parse_hour_minute monthly_hour ≡ some (hh, mm)
    → t.day ≡ 1
    → t.deadline hh mm ≤ t.now
    → t.cutoff ≡ (y, m)
    → 2 ≤ y
    → y < 10000
    → 1 ≤ m
    → m ≤ 12
    → i < 24
    → (length (requested monthly_hour t) ≡ 24)
      × IsMonthBack y m i (get_elem? (requested monthly_hour t) i)
unfolding requested
requested_lem monthly_hour t hh mm y m i p d late c h k l u v =
    rw (requested, p, d, not_before t.now (t.deadline hh mm) late, c, first_candidate i 24 (y, m) v)
      (length-candidates_from 0 24 (y, m), month_back y m i h k l u v)
  where
    not_before : (a b : ℕ) → b ≤ a → ltb a b ≡ false
    not_before a b q = ground arith
