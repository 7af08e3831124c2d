-- ===== src/Tests/Archives.antt =====
-- internal/archive and the archive request of internal/store.
use vps_safe_dashboard.Prelude.{
  ℕ, ◌+◌, ◌*◌, ◌≡◌, refl, Bool, true, false, List, [], ◌∷◌, Bytes, none, some, codes, leb, arith,
  length, get_elem?,
}
use vps_safe_dashboard.Text.{ℤ, pos, dec_value}
use vps_safe_dashboard.Config.ClockTime.{parse_hour_minute}
use vps_safe_dashboard.Archive.Months.{parse_month}
use vps_safe_dashboard.Archive.Month.{
  broken, Slot, Env, archive_month, month_has_data, select_rows, in_month,
}
use vps_safe_dashboard.Archive.Month.Replaced.{IsSafe, IsArchived, IsWorking}
use vps_safe_dashboard.Archive.Month.Healed.{
  archive_month-IsSafe, archive_month_lem, archive_month_again,
}
use vps_safe_dashboard.Archive.Due.{Tick, requested}
use vps_safe_dashboard.Archive.Due.Candidates.{IsMonthBack, requested_lem}
use vps_safe_dashboard.Archive.Exec.{exec_archive}
use vps_safe_dashboard.Archive.Exec.Done.{exec_archive_lem}

-- A usage is a whole number of percents: x >= y.
abbrev at_least : ℕ → ℕ → Bool
at_least x y = leb y x

-- Months of a hundred seconds; a row is its time.
abbrev month_start : ℕ → ℕ → ℤ
month_start y m = pos ((y * 12 + m) * 100)

-- One row of June 2026 and one of July in each table.
abbrev main : Bytes → List ℤ
main t = pos 2431801 ∷ pos 2431950 ∷ []

abbrev time_of : ℤ → ℤ
time_of r = r

abbrev june : Bytes
june = codes "2026-06"

june-parsed : parse_month june ≡ some (2026, 6)
unfolding parse_month dec_value
june-parsed = refl

abbrev env : Env ℤ
env = record {
  mkdir_ok = true;
  stale_db_ok = true;
  stale_gz_ok = true;
  read_ok = true;
  stat_ok = true;
  unrecord_ok = true;
  remove_ok = true;
  has_data_ok = true;
  attach_ok = true;
  got = λ t. some (pos 2431801 ∷ []);
  query_ok = λ t. true;
  left_db = none;
  chmod_ok = true;
  gzip_ok = true;
  left_gz = none;
  rename_ok = true;
  drop_ok = true;
  reread_ok = true;
  record_ok = true;
}

-- Renaming the packed file fails.
abbrev failing : Env ℤ
failing = record env { rename_ok = false }

-- June is recorded, but its file is gone, and half a copy is left.
abbrev lost : Slot ℤ
lost = record {
  meta = some (codes "2026-05,2026-06");
  final = none;
  tmp_db = some broken;
  tmp_gz = none;
}

lost-IsSafe : IsSafe time_of month_start main june 2026 6 lost
lost-IsSafe f r e = absurd cc

env-IsWorking : IsWorking time_of month_start main june 2026 6 env
unfolding select_rows in_month
env-IsWorking = record {
  mkdir = refl;
  stale_db = refl;
  stale_gz = refl;
  read = refl;
  stat = refl;
  unrecords = refl;
  removes = refl;
  has_data = refl;
  attaches = refl;
  exact = λ t. refl;
  queries = λ t. refl;
  chmods = refl;
  gzips = refl;
  renames = refl;
  drops = refl;
  rereads = refl;
  records = refl;
}

june_has_data : month_has_data time_of month_start main 2026 6 ≡ true
unfolding month_has_data select_rows in_month
june_has_data = refl

archive_month-IsSafe_example :
    IsSafe time_of month_start main june 2026 6
      (archive_month time_of month_start main failing june lost).0
archive_month-IsSafe_example =
    archive_month-IsSafe time_of month_start main june 2026 6 failing june-parsed lost lost-IsSafe

exec_archive_example :
    ((exec_archive at_least 90 time_of month_start main env (some 40) 0 1 june lost none).1.1
      ≡ none)
    × IsArchived time_of month_start main june 2026 6
        (exec_archive at_least 90 time_of month_start main env (some 40) 0 1 june lost none).0
exec_archive_example =
    exec_archive_lem at_least 90 time_of month_start main env june 2026 6 0 1 40 lost none refl
      june-parsed lost-IsSafe env-IsWorking june_has_data

abbrev healed : Slot ℤ
healed = (archive_month time_of month_start main env june lost).0

healed-IsArchived : IsArchived time_of month_start main june 2026 6 healed
healed-IsArchived =
    (archive_month_lem time_of month_start main june 2026 6 env june-parsed lost lost-IsSafe
      env-IsWorking june_has_data).1

archive_month_example : archive_month time_of month_start main env june healed ≡ (healed, none)
archive_month_example =
    archive_month_again time_of month_start main june 2026 6 env june-parsed healed
      healed-IsArchived env-IsWorking

-- The first of August, when June was two months ago.
abbrev tick : Tick
tick = record { day = 1; now = 500; deadline = λ hh mm. hh * 60 + mm; cutoff = (2026, 6) }

half_past_two : parse_hour_minute (codes "02:30") ≡ some (2, 30)
unfolding parse_hour_minute dec_value
half_past_two = refl

requested_example :
    (length (requested (codes "02:30") tick) ≡ 24)
    × IsMonthBack 2026 6 7 (get_elem? (requested (codes "02:30") tick) 7)
requested_example =
    requested_lem (codes "02:30") tick 2 30 2026 6 7 half_past_two refl (omega arith) refl
      (omega arith) (omega arith) (omega arith) (omega arith) (omega arith)
