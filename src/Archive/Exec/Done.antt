-- ===== src/Archive/Exec/Done.antt =====
-- A request of a month archives it.
use vps_safe_dashboard.Prelude.{ℕ, ◌≡◌, Bool, true, false, Bytes, List, Option, none, some}
use vps_safe_dashboard.Text.{ℤ}
use vps_safe_dashboard.Archive.Months.{parse_month}
use vps_safe_dashboard.Archive.Month.{Slot, Env, ArchiveError, archive_month, month_has_data}
use vps_safe_dashboard.Archive.Month.Replaced.{IsSafe, IsArchived, IsWorking}
use vps_safe_dashboard.Archive.Month.Healed.{archive_month_lem}
use vps_safe_dashboard.Archive.Exec.{
  Sys, report_archiver, started, told_end, should_skip_archive, exec_archive,
}
use vps_safe_dashboard.Event.{Level}

module _ {F R : Type 0} (at_least : F → F → Bool) (critical : F) (ts : R → ℤ)
    (month_start : ℕ → ℕ → ℤ) (main : Bytes → List R) (k : Env R) where
  told_done :
      (month : Bytes) (y m now : ℕ) (r : Slot R × Option ArchiveError) (sys : Sys F)
      → (r.1 ≡ none) × IsArchived ts month_start main month y m r.0
      → ((told_end at_least critical ts month_start main k now month r sys).1.1 ≡ none)
        × IsArchived ts month_start main month y m
            (told_end at_least critical ts month_start main k now month r sys).0
  unfolding told_end
  told_done month y m now (s, none) sys h = h
  told_done month y m now (s, some e) sys h = absurd cc

  -- Where the usage of the disk is known and below the threshold, no operation fails, the database has
  -- rows of the month, and a recorded month with its file has a whole copy there, the request returns
  -- no error, and the month is archived: it is recorded, its file has all tables, each with as many rows
  -- as the database has of the month and with their latest time, and no temporary file is left.
  pub exec_archive_lem :
      (month : Bytes) (y m now later : ℕ) (usage : F) (s : Slot R) (sys : Sys F)
      → at_least usage critical ≡ false
      → parse_month month ≡ some (y, m)
      → IsSafe ts month_start main month y m s
      → IsWorking ts month_start main month y m k
      → month_has_data ts month_start main y m ≡ true
      → ((exec_archive at_least critical ts month_start main k
            (some usage)
            now
            later
            month
            s
            sys).1.1
          ≡ none)
        × IsArchived ts month_start main month y m
            (exec_archive at_least critical ts month_start main k
              (some usage)
              now
              later
              month
              s
              sys).0
  unfolding exec_archive should_skip_archive
  exec_archive_lem month y m now later usage s sys low parsed safe w d = rw low (
      told_done month y m later (archive_month ts month_start main k month s)
        (report_archiver at_least critical ts month_start main k now Level.info (started month) sys)
        (archive_month_lem ts month_start main month y m k parsed s safe w d))
