-- ===== src/Archive/Month.antt =====
-- internal/archive/archive.go: ArchiveMonthDB. The files of one month and the recorded months are the
-- state; whether each operation on a file or the database succeeds is in `Env`, with what is left of a
-- file where it does not. A crash leaves the state of an operation that fails. The rows of the database
-- do not change meanwhile: the store's one writer runs it. time.Date is the parameter `month_start`,
-- the Unix time of the beginning of a month, where month 13 is the first of the next year.
pub mod Checked
pub mod Replaced
pub mod Healed
use vps_safe_dashboard.Prelude.{
  ℕ, ◌+◌, ◌≡◌, Bool, true, false, ◌&&◌, not, List, [], ◌∷◌, ◌++◌, Bytes, Option, none, some, ◌==◌,
  any, if◌then◌else◌, length,
}
use vps_safe_dashboard.Text.{ℤ}
use vps_safe_dashboard.Config.Validate.{at_least}
use vps_safe_dashboard.Store.Writer.Retention.{archived_tables}
use vps_safe_dashboard.Archive.Months.{
  parse_month, join_comma, copied_months, contains_month, remain,
}

-- A copy of tables, plain or packed by gzip, or a file that is none.
pub data File (R : Type 0) : Type 0 where
  copy : List (Bytes × List R) → File R
  broken : File R

-- copied_months in `meta`, and YYYY-MM.db.gz, .db.tmp, .db.gz.tmp.
pub record Slot (R : Type 0) : Type 0 where
  pub meta : Option Bytes
  pub final : Option (File R)
  pub tmp_db : Option (File R)
  pub tmp_gz : Option (File R)

pub data ArchiveError : Type 0 where
  bad_month mkdir_failed stale_failed read_failed unrecord_failed remove_failed has_data_failed :
      ArchiveError
  attach_failed insert_failed query_failed count_mismatch max_mismatch : ArchiveError
  chmod_failed gzip_failed rename_failed record_failed : ArchiveError

-- What the operations do. `got` is what the copy of a table then has.
pub record Env (R : Type 0) : Type 0 where
  pub mkdir_ok : Bool
  pub stale_db_ok : Bool
  pub stale_gz_ok : Bool
  pub read_ok : Bool
  pub stat_ok : Bool
  pub unrecord_ok : Bool
  pub remove_ok : Bool
  pub has_data_ok : Bool
  pub attach_ok : Bool
  pub got : Bytes → Option (List R)
  pub query_ok : Bytes → Bool
  pub left_db : Option (File R)
  pub chmod_ok : Bool
  pub gzip_ok : Bool
  pub left_gz : Option (File R)
  pub rename_ok : Bool
  pub drop_ok : Bool
  pub reread_ok : Bool
  pub record_ok : Bool

abbrev pub same_time : Option ℤ → Option ℤ → Bool
same_time (some a) (some b) = at_least a b && at_least b a
same_time _ _ = false

-- if err := op; err != nil { return err }
abbrev pub attempt {ℓ} : {S : Type ℓ} → Bool → ArchiveError → S → S → S × Option ArchiveError
attempt true e old new = (new, none)
attempt false e old new = (old, some e)

abbrev pub and_next {ℓ} :
    {S : Type ℓ} → S × Option ArchiveError → (S → S × Option ArchiveError) → S × Option ArchiveError
and_next (s, none) f = f s
and_next (s, some e) f = (s, some e)

module _ {R : Type 0} (ts : R → ℤ) (month_start : ℕ → ℕ → ℤ) (main : Bytes → List R) where
  -- ts >= start AND ts < end
  unfoldable pub in_month : ℕ → ℕ → R → Bool
  in_month y m r =
      at_least (ts r) (month_start y m) && not (at_least (ts r) (month_start y (m + 1)))

  unfoldable pub select_rows : ℕ → ℕ → List R → List R
  select_rows y m [] = []
  select_rows y m (r ∷ rs) =
      let rest = select_rows y m rs in if in_month y m r then r ∷ rest else rest

  abbrev pub rows_in : ℕ → ℕ → Bytes → List R
  rows_in y m t = select_rows y m (main t)

  unfoldable pub month_has_data : ℕ → ℕ → Bool
  month_has_data y m = any (λ t. not (length (rows_in y m t) == 0)) archived_tables

  -- MAX(ts), NULL of no row
  unfoldable pub max_ts : List R → Option ℤ
  max_ts [] = none
  max_ts (r ∷ rs) = elim (max_ts rs) [
    | none ↦ some (ts r)
    | some t ↦ some (if at_least t (ts r) then t else ts r)
  ]

  module _ (k : Env R) where
    unfoldable pub check_rows : List R → List R → Option ArchiveError
    check_rows rows got =
        if length rows == length got
        then if length rows == 0
          then none
          else if same_time (max_ts rows) (max_ts got)
          then none
          else some max_mismatch
        else some count_mismatch

    unfoldable pub check_table : ℕ → ℕ → Bytes → List R → Option ArchiveError
    check_table y m t got =
        if k.query_ok t then check_rows (rows_in y m t) got else some query_failed

    unfoldable pub check_tables : ℕ → ℕ → List (Bytes × List R) → Option ArchiveError
    check_tables y m [] = none
    check_tables y m ((t, got) ∷ cs) =
        let rest = check_tables y m cs in
        elim (check_table y m t got) [ some e ↦ some e | none ↦ rest ]

    -- CREATE TABLE and INSERT of each table.
    unfoldable pub copy_tables : List Bytes → Option (List (Bytes × List R))
    copy_tables [] = some []
    copy_tables (t ∷ ts) =
        let rest = copy_tables ts in
        elim (k.got t) [
          | none ↦ none
          | some rows ↦ elim rest [ none ↦ none | some cs ↦ some ((t, rows) ∷ cs) ]
        ]

    unfoldable pub exported :
        ℕ → ℕ → Option (List (Bytes × List R)) → Slot R → Slot R × Option ArchiveError
    exported y m none s = (record s { tmp_db = k.left_db }, some insert_failed)
    exported y m (some cs) s = (record s { tmp_db = some (copy cs) }, check_tables y m cs)

    unfoldable pub export_month : ℕ → ℕ → Slot R → Slot R × Option ArchiveError
    export_month y m s =
        if k.attach_ok
        then exported y m (copy_tables archived_tables) s
        else (record s { tmp_db = k.left_db }, some attach_failed)

    abbrev pub chmod_tmp : Slot R → Slot R × Option ArchiveError
    chmod_tmp s = attempt k.chmod_ok chmod_failed s s

    abbrev pub gzip_of : Option (File R) → Slot R → Slot R × Option ArchiveError
    gzip_of none s = (s, some gzip_failed)
    gzip_of (some f) s =
        attempt k.gzip_ok gzip_failed (record s { tmp_gz = k.left_gz })
          (record s { tmp_gz = some f })

    unfoldable pub gzip_file : Slot R → Slot R × Option ArchiveError
    gzip_file s = gzip_of s.tmp_db s

    unfoldable pub rename_gz : Slot R → Slot R × Option ArchiveError
    rename_gz s = attempt k.rename_ok rename_failed s (record s { final = s.tmp_gz; tmp_gz = none })

    unfoldable pub drop_db : Slot R → Slot R × Option ArchiveError
    drop_db s = attempt k.drop_ok remove_failed s (record s { tmp_db = none })

    unfoldable pub record_copied_month : Bytes → Slot R → Slot R × Option ArchiveError
    record_copied_month month s =
        if k.reread_ok
        then if contains_month (copied_months s.meta) month
          then (s, none)
          else attempt k.record_ok record_failed s
              (record s { meta = some (join_comma (copied_months s.meta ++ month ∷ [])) })
        else (s, some record_failed)

    -- Behind the test of an empty month.
    unfoldable pub replace_copy : ℕ → ℕ → Bytes → Slot R → Slot R × Option ArchiveError
    replace_copy y m month s =
        and_next
          (and_next
            (and_next (and_next (and_next (export_month y m s) chmod_tmp) gzip_file) rename_gz)
            drop_db)
          (record_copied_month month)

    unfoldable pub store_month : ℕ → ℕ → Bytes → Slot R → Slot R × Option ArchiveError
    store_month y m month s =
        if k.has_data_ok
        then if month_has_data y m then replace_copy y m month s else (s, none)
        else (s, some has_data_failed)

    -- The month's record is taken out, since its file is missing.
    unfoldable pub unrecord : Bytes → Slot R → Slot R × Option ArchiveError
    unrecord month s =
        attempt k.unrecord_ok unrecord_failed s
          (record s { meta = some (join_comma (remain (copied_months s.meta) month)) })

    unfoldable pub remove_final : Slot R → Slot R × Option ArchiveError
    remove_final s = attempt k.remove_ok remove_failed s (record s { final = none })

    -- By whether the month is recorded, and whether its file is seen.
    unfoldable pub known_month : ℕ → ℕ → Bytes → Bool → Bool → Slot R → Slot R × Option ArchiveError
    known_month y m month true true s = (s, none)
    known_month y m month true false s = and_next (unrecord month s) (store_month y m month)
    known_month y m month false true s = and_next (remove_final s) (store_month y m month)
    known_month y m month false false s = store_month y m month s

    abbrev pub exists : Option (File R) → Bool
    exists none = false
    exists (some f) = true

    unfoldable pub look_up : ℕ → ℕ → Bytes → Slot R → Slot R × Option ArchiveError
    look_up y m month s =
        if k.read_ok
        then known_month y m month (contains_month (copied_months s.meta) month)
            (k.stat_ok && exists s.final) s
        else (s, some read_failed)

    unfoldable pub remove_stale : Slot R → Slot R × Option ArchiveError
    remove_stale s =
        and_next (attempt k.stale_db_ok stale_failed s (record s { tmp_db = none }))
          (λ s'. attempt k.stale_gz_ok stale_failed s' (record s' { tmp_gz = none }))

    unfoldable pub archive_parsed : Option (ℕ × ℕ) → Bytes → Slot R → Slot R × Option ArchiveError
    archive_parsed none month s = (s, some bad_month)
    archive_parsed (some (y, m)) month s =
        and_next (and_next (attempt k.mkdir_ok mkdir_failed s s) remove_stale) (look_up y m month)

    unfoldable pub archive_month : Bytes → Slot R → Slot R × Option ArchiveError
    archive_month month s = archive_parsed (parse_month month) month s
