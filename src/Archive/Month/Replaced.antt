-- ===== src/Archive/Month/Replaced.antt =====
-- How a run over one month ends: with what it was to reach, or safe, after a failure; and the steps that
-- make a new copy.
use vps_safe_dashboard.Prelude.{
  ℕ, ◌≡◌, refl, Bool, true, false, List, Bytes, Option, none, some, if◌then◌else◌,
}
use vps_safe_dashboard.Text.{ℤ}
use vps_safe_dashboard.Store.Writer.Retention.{archived_tables}
use vps_safe_dashboard.Archive.Months.{parse_month}
use vps_safe_dashboard.Archive.Months.Recorded.{recorded, recorded-append}
use vps_safe_dashboard.Archive.Month.{
  File, copy, Slot, Env, ArchiveError, attach_failed, record_failed, attempt, and_next, rows_in,
  copy_tables, check_tables, exported, export_month, gzip_of, gzip_file, rename_gz, drop_db,
  record_copied_month, replace_copy,
}
use vps_safe_dashboard.Archive.Month.Checked.{
  IsWhole, check_tables-Matches, copy_tables_keys, copy_tables_exact, check_tables_exact,
}

never : false ≡ true → ⊥
never p = cc

module _ {R : Type 0} (ts : R → ℤ) (month_start : ℕ → ℕ → ℤ) (main : Bytes → List R) (month : Bytes)
    (y m : ℕ) where
  abbrev pub WholeFile : File R → Type 0
  WholeFile f = IsWhole ts month_start main y m f

  abbrev pub WholeIn : Option (File R) → Type 0
  WholeIn o = (f : File R) × ((o ≡ some f) × WholeFile f)

  -- If the month is recorded and has a file, that is a whole copy.
  abbrev pub IsSafe : Slot R → Type 0
  IsSafe s = (f : File R) → recorded s.meta month ≡ true → s.final ≡ some f → WholeFile f

  -- The month is recorded, its file is a whole copy, and the temporary files are gone.
  abbrev pub IsArchived : Slot R → Type 0
  IsArchived s =
      (recorded s.meta month ≡ true) × ((s.tmp_db ≡ none) × ((s.tmp_gz ≡ none) × WholeIn s.final))

  -- No operation fails, and the copies are exact.
  pub record IsWorking (k : Env R) : Type 0 where
    pub mkdir : k.mkdir_ok ≡ true
    pub stale_db : k.stale_db_ok ≡ true
    pub stale_gz : k.stale_gz_ok ≡ true
    pub read : k.read_ok ≡ true
    pub stat : k.stat_ok ≡ true
    pub unrecords : k.unrecord_ok ≡ true
    pub removes : k.remove_ok ≡ true
    pub has_data : k.has_data_ok ≡ true
    pub attaches : k.attach_ok ≡ true
    pub exact : (t : Bytes) → k.got t ≡ some (rows_in ts month_start main y m t)
    pub queries : (t : Bytes) → k.query_ok t ≡ true
    pub chmods : k.chmod_ok ≡ true
    pub gzips : k.gzip_ok ≡ true
    pub renames : k.rename_ok ≡ true
    pub drops : k.drop_ok ≡ true
    pub rereads : k.reread_ok ≡ true
    pub records : k.record_ok ≡ true

  pub fresh-IsSafe : (s : Slot R) → recorded s.meta month ≡ false → IsSafe s
  fresh-IsSafe s h f r e = absurd cc

  pub archived-IsSafe : (s : Slot R) → IsArchived s → IsSafe s
  archived-IsSafe s a g r e = let whole = a.1.1.1 in (whole.1.1.0, (cc, whole.1.1.1.1))

  module _ (k : Env R) where
    -- A run that succeeds reaches `Q`; one that fails is safe, and something has failed.
    abbrev pub Ends : (Slot R → Type 0) → Slot R × Option ArchiveError → Type 0
    Ends Q (s, none) = Q s
    Ends Q (s, some e) = IsSafe s × (IsWorking k → ⊥)

    pub and_next-Ends :
        (P Q : Slot R → Type 0) (r : Slot R × Option ArchiveError)
        (f : Slot R → Slot R × Option ArchiveError)
        → Ends P r
        → ((s : Slot R) → P s → Ends Q (f s))
        → Ends Q (and_next r f)
    and_next-Ends P Q (s, none) f h later = later s h
    and_next-Ends P Q (s, some e) f h later = h

    pub Ends-weak :
        (P Q : Slot R → Type 0) (r : Slot R × Option ArchiveError)
        → ((s : Slot R) → P s → Q s)
        → Ends P r
        → Ends Q r
    Ends-weak P Q (s, none) g h = g s h
    Ends-weak P Q (s, some e) g h = h

    pub attempt-Ends :
        (Q : Slot R → Type 0) (ok : Bool) (e : ArchiveError) (old new : Slot R)
        → (IsWorking k → ok ≡ true)
        → IsSafe old
        → Q new
        → Ends Q (attempt ok e old new)
    attempt-Ends Q true e old new works safe q = q
    attempt-Ends Q false e old new works safe q = (safe, λ w. never (works w))

    pub if-Ends :
        (Q : Slot R → Type 0) (ok : Bool) (e : ArchiveError) (s : Slot R)
        (r : Slot R × Option ArchiveError)
        → (IsWorking k → ok ≡ true)
        → IsSafe s
        → Ends Q r
        → Ends Q (if ok then r else (s, some e))
    if-Ends Q true e s r works safe h = h
    if-Ends Q false e s r works safe h = (safe, λ w. never (works w))

    abbrev pub IsFresh : Slot R → Type 0
    IsFresh s = recorded s.meta month ≡ false

    abbrev pub IsExported : Slot R → Type 0
    IsExported s = IsFresh s × WholeIn s.tmp_db

    abbrev pub IsPacked : Slot R → Type 0
    IsPacked s = IsFresh s × WholeIn s.tmp_gz

    abbrev pub IsRenamed : Slot R → Type 0
    IsRenamed s = IsFresh s × ((s.tmp_gz ≡ none) × WholeIn s.final)

    abbrev pub IsReplaced : Slot R → Type 0
    IsReplaced s = IsFresh s × ((s.tmp_db ≡ none) × ((s.tmp_gz ≡ none) × WholeIn s.final))

    checked-Ends :
        (cs : List (Bytes × List R)) (s : Slot R) (c : Option ArchiveError)
        → IsFresh s
        → copy_tables ts month_start main k archived_tables ≡ some cs
        → check_tables ts month_start main k y m cs ≡ c
        → Ends IsExported (record s { tmp_db = some (copy cs) }, c)
    checked-Ends cs s none fresh e h = (
      fresh,
      (
        copy cs,
        (
          refl,
          (
            cs,
            (
              refl,
              (
                copy_tables_keys ts month_start main k archived_tables cs e,
                check_tables-Matches ts month_start main k y m cs h,
              ),
            ),
          ),
        ),
      ),
    )
    checked-Ends cs s (some err) fresh e h = (
      fresh-IsSafe s fresh,
      λ w.
          let exact =
            copy_tables_exact ts month_start main k y m w.exact w.queries archived_tables in
          let ok = check_tables_exact ts month_start main k y m w.exact w.queries archived_tables in
          cc,
    )

    exported-Ends :
        (o : Option (List (Bytes × List R))) (s : Slot R)
        → IsFresh s
        → copy_tables ts month_start main k archived_tables ≡ o
        → Ends IsExported (exported ts month_start main k y m o s)
    unfolding exported
    exported-Ends none s fresh e = (
      fresh-IsSafe s fresh,
      λ w.
          let exact =
            copy_tables_exact ts month_start main k y m w.exact w.queries archived_tables in
          cc,
    )
    exported-Ends (some cs) s fresh e =
        checked-Ends cs s (check_tables ts month_start main k y m cs) fresh e refl

    export_month-Ends :
        (s : Slot R) → IsFresh s → Ends IsExported (export_month ts month_start main k y m s)
    unfolding export_month
    export_month-Ends s fresh =
        if-Ends IsExported k.attach_ok attach_failed (record s { tmp_db = k.left_db }) _
          (λ w. w.attaches) (fresh-IsSafe s fresh)
          (exported-Ends (copy_tables ts month_start main k archived_tables) s fresh refl)

    gzip_of-Ends :
        (o : Option (File R)) (s : Slot R)
        → IsFresh s
        → WholeIn o
        → Ends IsPacked (gzip_of ts month_start main k o s)
    gzip_of-Ends none s fresh h = absurd cc
    gzip_of-Ends (some f) s fresh h =
        attempt-Ends IsPacked k.gzip_ok _ _ _ (λ w. w.gzips) (fresh-IsSafe s fresh) (fresh, h)

    rename_gz-Ends : (s : Slot R) → IsPacked s → Ends IsRenamed (rename_gz ts month_start main k s)
    unfolding rename_gz
    rename_gz-Ends s h =
        attempt-Ends IsRenamed k.rename_ok _ _ _ (λ w. w.renames) (fresh-IsSafe s h.0)
          (h.0, (refl, h.1))

    drop_db-Ends : (s : Slot R) → IsRenamed s → Ends IsReplaced (drop_db ts month_start main k s)
    unfolding drop_db
    drop_db-Ends s h =
        attempt-Ends IsReplaced k.drop_ok _ _ _ (λ w. w.drops) (fresh-IsSafe s h.0)
          (h.0, (refl, (h.1.0, h.1.1)))

    record_copied_month-Ends :
        (s : Slot R)
        → parse_month month ≡ some (y, m)
        → IsReplaced s
        → Ends IsArchived (record_copied_month ts month_start main k month s)
    unfolding record_copied_month
    record_copied_month-Ends s parsed h =
        if-Ends IsArchived k.reread_ok record_failed s _ (λ w. w.rereads) (fresh-IsSafe s h.0)
          (rw h.0 (
            attempt-Ends IsArchived k.record_ok _ _ _ (λ w. w.records) (fresh-IsSafe s h.0)
              (recorded-append s.meta month y m parsed, h.1)))

    pub replace_copy-Ends :
        (s : Slot R)
        → parse_month month ≡ some (y, m)
        → IsFresh s
        → Ends IsArchived (replace_copy ts month_start main k y m month s)
    unfolding replace_copy gzip_file
    replace_copy-Ends s parsed fresh =
        and_next-Ends IsReplaced IsArchived _ _
          (and_next-Ends IsRenamed IsReplaced _ _
            (and_next-Ends IsPacked IsRenamed _ _
              (and_next-Ends IsExported IsPacked _ _
                (and_next-Ends IsExported IsExported _ _ (export_month-Ends s fresh) (λ s' h.
                  attempt-Ends IsExported k.chmod_ok _ _ _ (λ w. w.chmods) (fresh-IsSafe s' h.0) h))
                (λ s' h. gzip_of-Ends s'.tmp_db s' h.0 h.1))
              rename_gz-Ends)
            drop_db-Ends)
          (λ s' h. record_copied_month-Ends s' parsed h)
