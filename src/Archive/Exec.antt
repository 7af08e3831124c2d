-- ===== src/Archive/Exec.antt =====
-- internal/store/store_archive.go: execArchive, and ShouldSkipArchive of internal/archive. The usage is
-- a float64 of an abstract type `F`, `none` where statfs fails.
pub mod Done
use vps_safe_dashboard.Prelude.{
  ℕ, Bool, true, false, Bytes, List, Option, none, some, if◌then◌else◌,
}
use vps_safe_dashboard.Text.{ℤ}
use vps_safe_dashboard.Event.{Chan, SystemEvent, Source, Level, report_sys}
use vps_safe_dashboard.Archive.Month.{Slot, Env, ArchiveError, archive_month}

-- The texts that are reported; the durations in them are left out.
pub data Message (F : Type 0) : Type 0 where
  skipped : Bytes → Option F → Message F
  started : Bytes → Message F
  archive_failed : Bytes → ArchiveError → Message F
  completed : Bytes → Message F

-- The channel of the agent's own events.
abbrev pub Sys : Type 0 → Type 0
Sys F = Option (Chan (SystemEvent (Message F)))

module _ {F : Type 0} (at_least : F → F → Bool) where
  unfoldable pub should_skip_archive : Option F → F → Bool
  should_skip_archive none critical = true
  should_skip_archive (some usage) critical = at_least usage critical

module _ {F R : Type 0} (at_least : F → F → Bool) (critical : F) (ts : R → ℤ)
    (month_start : ℕ → ℕ → ℤ) (main : Bytes → List R) (k : Env R) where
  abbrev pub report_archiver : ℕ → Level → Message F → Sys F → Sys F
  report_archiver now level text sys = report_sys now Source.archiver level text sys

  -- The end of an archive run, with its report.
  unfoldable pub told_end :
      ℕ → Bytes → Slot R × Option ArchiveError → Sys F → Slot R × (Sys F × Option ArchiveError)
  told_end now month (s, none) sys =
      (s, (report_archiver now Level.info (completed month) sys, none))
  told_end now month (s, some e) sys =
      (s, (report_archiver now Level.error (archive_failed month e) sys, some e))

  -- `now` is the clock before the run, `later` after it.
  unfoldable pub exec_archive :
      Option F → ℕ → ℕ → Bytes → Slot R → Sys F → Slot R × (Sys F × Option ArchiveError)
  exec_archive usage now later month s sys =
      if should_skip_archive at_least usage critical
      then (s, (report_archiver now Level.warn (skipped month usage) sys, none))
      else told_end later month (archive_month ts month_start main k month s)
          (report_archiver now Level.info (started month) sys)
