-- ===== src/Diskmon/Alerts.antt =====
-- What the disk monitor promises: its levels by the thresholds, and what each check reports.
use vps_safe_dashboard.Prelude.{
  ℕ, ◌≤◌, ◌≡◌, refl, Bool, true, false, ◌||◌, not, Option, none, some, leb, if◌then◌else◌, arith,
}
use vps_safe_dashboard.Event.{SystemEvent, Chan, Source, Level, report_sys, since}
use vps_safe_dashboard.Diskmon.{
  WaterLevel, same_level, alert_period, Thresholds, Message, usage_at, recovered, check_failed,
  Monitor, classify, report_level, first_check, level_changed, level_kept, check,
}

abbrev pub rank : WaterLevel → ℕ
rank WaterLevel.ok = 0
rank WaterLevel.warn = 1
rank WaterLevel.critical = 2
rank WaterLevel.emergency = 3

module _ {F : Type 0} (at_least : F → ℕ → Bool)
    (lower : (u : F) (m n : ℕ) → m ≤ n → at_least u n ≡ true → at_least u m ≡ true) where
  -- Of a comparison that holds of all lower bounds too, and thresholds in their order: the level is at
  -- least warn, critical or emergency exactly if the usage is at least that threshold.
  pub classify_lem :
      (u : F) (th : Thresholds)
      → th.warn ≤ th.critical
      → th.critical ≤ th.emergency
      → (leb 1 (rank (classify at_least u th)) ≡ at_least u th.warn)
        × (leb 2 (rank (classify at_least u th)) ≡ at_least u th.critical)
        × (leb 3 (rank (classify at_least u th)) ≡ at_least u th.emergency)
  unfolding classify
  classify_lem u th h k =
      ground (arith, lower u th.critical th.emergency k, lower u th.warn th.critical h)

module _ {F : Type 0} where
  -- An alert of `l` is due in the first round, where the level was another, and where the last alert of
  -- `l` is ten minutes old.
  abbrev pub is_due : ℕ → WaterLevel → Monitor F → Bool
  is_due now l s =
      s.first || not (same_level l s.last_level) || leb alert_period (since now (s.last_report l))

  -- What a check at `now` is to report where the usage `u` is at the level: that it is normal again,
  -- or an alert.
  unfoldable pub expected : ℕ → F → WaterLevel → Monitor F → Option (Level × Message F)
  expected now u WaterLevel.ok s =
      if s.first || same_level WaterLevel.ok s.last_level
      then none
      else some (Level.info, recovered)
  expected now u WaterLevel.warn s =
      if is_due now WaterLevel.warn s then some (Level.warn, usage_at WaterLevel.warn u) else none
  expected now u WaterLevel.critical s =
      if is_due now WaterLevel.critical s
      then some (Level.warn, usage_at WaterLevel.critical u)
      else none
  expected now u WaterLevel.emergency s =
      if is_due now WaterLevel.emergency s
      then some (Level.error, usage_at WaterLevel.emergency u)
      else none

  unfoldable pub sent :
      ℕ
      → Option (Level × Message F)
      → Option (Chan (SystemEvent (Message F)))
      → Option (Chan (SystemEvent (Message F)))
  sent t none sys = sys
  sent t (some (level, message)) sys = report_sys t Source.disk level message sys

  -- The time that is kept of the last report of level `l`.
  unfoldable pub kept_report : ℕ → Option (Level × Message F) → ℕ → ℕ
  kept_report now none last = last
  kept_report now (some m) last = now

  -- `s'` is the state after a check at `now` that found the usage `u`, at the level `l`.
  abbrev pub IsChecked : ℕ → ℕ → F → WaterLevel → Monitor F → Monitor F → Type 0
  IsChecked now t u l s s' =
      (s'.first ≡ false)
      × (s'.last_level ≡ l)
      × (s'.sys ≡ sent t (expected now u l s) s.sys)
      × (s'.last_report l ≡ kept_report now (expected now u l s) (s.last_report l))
      × ((k : WaterLevel) → same_level k l ≡ false → s'.last_report k ≡ s.last_report k)

module _ {F : Type 0} (at_least : F → ℕ → Bool) (now t : ℕ) (u : F) where
  first_check-IsChecked :
      (l : WaterLevel) (s : Monitor F)
      → s.first ≡ true
      → IsChecked now t u l s (first_check at_least now t u l s)
  unfolding first_check expected sent kept_report report_level
  first_check-IsChecked WaterLevel.ok s e = ground arith
  first_check-IsChecked WaterLevel.warn s e = ground arith
  first_check-IsChecked WaterLevel.critical s e = ground arith
  first_check-IsChecked WaterLevel.emergency s e = ground arith

  level_changed-IsChecked :
      (l : WaterLevel) (s : Monitor F)
      → s.first ≡ false
      → same_level l s.last_level ≡ false
      → IsChecked now t u l s (level_changed at_least now t u l s)
  unfolding level_changed expected sent kept_report report_level
  level_changed-IsChecked WaterLevel.ok s e d = ground arith
  level_changed-IsChecked WaterLevel.warn s e d = ground arith
  level_changed-IsChecked WaterLevel.critical s e d = ground arith
  level_changed-IsChecked WaterLevel.emergency s e d = ground arith

  level_kept-IsChecked :
      (l : WaterLevel) (s : Monitor F)
      → s.first ≡ false
      → same_level l s.last_level ≡ true
      → IsChecked now t u l s (level_kept at_least now t u l s)
  unfolding level_kept expected sent kept_report report_level
  level_kept-IsChecked WaterLevel.ok s e d = ground arith
  level_kept-IsChecked WaterLevel.warn s e d = ground arith
  level_kept-IsChecked WaterLevel.critical s e d = ground arith
  level_kept-IsChecked WaterLevel.emergency s e d = ground arith

choice :
    {A : Type 0} (P : A → Type 0) (begins same : Bool) {x y z : A}
    → (begins ≡ true → P x)
    → (begins ≡ false → same ≡ true → P y)
    → (begins ≡ false → same ≡ false → P z)
    → P (if begins then x else if same then y else z)
choice P true same h k j = h refl
choice P false true h k j = k refl refl
choice P false false h k j = j refl refl

module _ {F : Type 0} (at_least : F → ℕ → Bool) where
  -- What holds of a check that could not read the usage, or read it as `u`.
  abbrev pub IsCheck : Thresholds → ℕ → ℕ → Option F → Monitor F → Monitor F → Type 0
  IsCheck th now t none s s' =
      (s'.first ≡ false)
      × (s'.last_level ≡ s.last_level)
      × (s'.sys ≡ sent t (some (Level.warn, check_failed)) s.sys)
      × ((k : WaterLevel) → s'.last_report k ≡ s.last_report k)
  IsCheck th now t (some u) s s' = IsChecked now t u (classify at_least u th) s s'

  -- A check reports just this, from any state. Where the usage cannot be read: the failure, and nothing
  -- else changes but that the first round is over. Else the level kept is that of the usage; an alert of
  -- that level is sent, unless it is normal, in the first round, on a change of the level, and where the
  -- last report of the level is ten minutes old, and else none; a return to the normal level is reported
  -- once; and the time kept of a level changes, to that of the check, exactly if the level is reported.
  pub check_lem :
      (th : Thresholds) (now t : ℕ) (o : Option F) (s : Monitor F)
      → IsCheck th now t o s (check at_least th now t o s)
  unfolding check sent
  check_lem th now t none s = (refl, refl, refl, λ k. refl)
  check_lem th now t (some u) s =
      let l : WaterLevel = classify at_least u th in
      choice (IsChecked now t u l s) s.first (same_level l s.last_level)
        (first_check-IsChecked at_least now t u l s) (level_kept-IsChecked at_least now t u l s)
        (level_changed-IsChecked at_least now t u l s)
