-- ===== src/Diskmon.antt =====
-- internal/diskmon/diskmon.go: the levels of disk usage, and the alerts on them. The usage is a float64
-- of an abstract type `F`, which is only compared: `at_least u n` is u >= float64(n).
pub mod Alerts
use vps_safe_dashboard.Prelude.{
  ℕ, ◌*◌, Bool, true, false, not, ◌&&◌, Option, none, some, leb, if◌then◌else◌,
}
use vps_safe_dashboard.Event.{SystemEvent, Chan, Source, Level, report_sys, since}

pub data WaterLevel : Type 0 where
  ok warn critical emergency : WaterLevel

abbrev pub same_level : WaterLevel → WaterLevel → Bool
same_level WaterLevel.ok WaterLevel.ok = true
same_level WaterLevel.warn WaterLevel.warn = true
same_level WaterLevel.critical WaterLevel.critical = true
same_level WaterLevel.emergency WaterLevel.emergency = true
same_level _ _ = false

abbrev pub is_ok : WaterLevel → Bool
is_ok l = same_level l WaterLevel.ok

-- 10 * time.Minute, in nanoseconds
abbrev pub alert_period : ℕ
alert_period = 600 * 1000000000

-- The texts of the monitor's reports.
pub data Message (F : Type 0) : Type 0 where
  check_failed : Message F
  usage_at : WaterLevel → F → Message F
  recovered : Message F

pub record Thresholds : Type 0 where
  pub warn : ℕ
  pub critical : ℕ
  pub emergency : ℕ

-- `last_report` is a map: a level that is missing reads as the zero time, which is 0
-- (Event.antt).
pub record Monitor (F : Type 0) : Type 0 where
  pub first : Bool
  pub last_level : WaterLevel
  pub last_report : WaterLevel → ℕ
  pub sys : Option (Chan (SystemEvent (Message F)))

abbrev pub new_monitor : {F : Type 0} → Option (Chan (SystemEvent (Message F))) → Monitor F
new_monitor sys = record {
  first = true;
  last_level = WaterLevel.ok;
  last_report = λ l. 0;
  sys = sys;
}

-- lastReport[l] = t
abbrev pub set_report : WaterLevel → ℕ → (WaterLevel → ℕ) → WaterLevel → ℕ
set_report l t m k = if same_level k l then t else m k

module _ {F : Type 0} (at_least : F → ℕ → Bool) where
  unfoldable pub classify : F → Thresholds → WaterLevel
  classify u th =
      if at_least u th.emergency
      then WaterLevel.emergency
      else if at_least u th.critical
      then WaterLevel.critical
      else if at_least u th.warn
      then WaterLevel.warn
      else WaterLevel.ok

  -- The helper `report`: the normal level has no alert. `t` is what ReportSys reads from the clock.
  unfoldable pub report_level :
      ℕ
      → WaterLevel
      → F
      → Option (Chan (SystemEvent (Message F)))
      → Option (Chan (SystemEvent (Message F)))
  report_level t WaterLevel.ok u sys = sys
  report_level t WaterLevel.emergency u sys =
      report_sys t Source.disk Level.error (usage_at WaterLevel.emergency u) sys
  report_level t l u sys = report_sys t Source.disk Level.warn (usage_at l u) sys

  -- A check that has read the usage `u`: in the first round, at another level, at the same level.
  unfoldable pub first_check : ℕ → ℕ → F → WaterLevel → Monitor F → Monitor F
  first_check now t u l s =
      if is_ok l then record s { first = false; last_level = l } else record s {
        first = false;
        last_level = l;
        last_report = set_report l now s.last_report;
        sys = report_level t l u s.sys;
      }

  unfoldable pub level_changed : ℕ → ℕ → F → WaterLevel → Monitor F → Monitor F
  level_changed now t u l s =
      let told = report_level t l u s.sys in
      record s {
        last_level = l;
        last_report = set_report l now s.last_report;
        sys = if is_ok l then report_sys t Source.disk Level.info recovered told else told;
      }

  unfoldable pub level_kept : ℕ → ℕ → F → WaterLevel → Monitor F → Monitor F
  level_kept now t u l s =
      if not (is_ok l) && leb alert_period (since now (s.last_report l))
      then record s { last_report = set_report l now s.last_report; sys = report_level t l u s.sys }
      else s

  -- The callback of util.Periodic, with what usageFn returned: `none` is an error.
  unfoldable pub check : Thresholds → ℕ → ℕ → Option F → Monitor F → Monitor F
  check th now t none s = record s {
    first = false;
    sys = report_sys t Source.disk Level.warn check_failed s.sys;
  }
  check th now t (some u) s =
      let l = classify u th in
      if s.first
      then first_check now t u l s
      else if same_level l s.last_level
      then level_kept now t u l s
      else level_changed now t u l s
