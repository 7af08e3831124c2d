-- ===== src/Tests/Disks.antt =====
-- internal/diskmon: the usage as a whole number of percent.
use vps_safe_dashboard.Prelude.{
  ℕ, ◌≤◌, ◌≡◌, refl, Bool, true, false, [], ◌∷◌, some, leb, leb→le, le→leb, arith,
}
use vps_safe_dashboard.Event.{Source, Level, report_sys, try_send}
use vps_safe_dashboard.Diskmon.{
  WaterLevel, Thresholds, Monitor, usage_at, classify, report_level, level_kept, check,
}
use vps_safe_dashboard.Diskmon.Alerts.{IsCheck, check_lem}

abbrev percent_at_least : ℕ → ℕ → Bool
percent_at_least u n = leb n u

percent_lower : (u m n : ℕ) → m ≤ n → percent_at_least u n ≡ true → percent_at_least u m ≡ true
percent_lower u m n h k = le→leb m u (omega (arith, leb→le n u k))

abbrev thresholds : Thresholds
thresholds = record { warn = 80; critical = 90; emergency = 95 }

-- At 92 percent for the second time, more than ten minutes after its last alert.
abbrev warned : Monitor ℕ
warned = record {
  first = false;
  last_level = WaterLevel.critical;
  last_report = λ l. 5;
  sys = some record { capacity = 4; queue = [] };
}

check_alerts :
    (check percent_at_least thresholds 700000000000 700000000001 (some 92) warned).sys ≡ (
      some record {
        capacity = 4;
        queue =
            record {
              ts = 700;
              source = Source.disk;
              level = Level.warn;
              message = usage_at WaterLevel.critical 92;
            }
            ∷ [];
      })
unfolding check classify level_kept report_level report_sys try_send
check_alerts = refl

check_example :
    IsCheck percent_at_least thresholds 700000000000 700000000001
      (some 92)
      warned
      (check percent_at_least thresholds 700000000000 700000000001 (some 92) warned)
check_example = check_lem percent_at_least thresholds 700000000000 700000000001 (some 92) warned
