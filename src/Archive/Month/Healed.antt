-- ===== src/Archive/Month/Healed.antt =====
-- However ArchiveMonthDB ends, a recorded month with a file has a whole copy; and a run without
-- failures makes one, from whatever an earlier run has left.
use vps_safe_dashboard.Prelude.{
  ℕ, ◌≡◌, refl, sym, ap, ◌∙◌, Bool, true, false, ◌&&◌, List, Bytes, Option, none, some,
  if◌then◌else◌,
}
use vps_safe_dashboard.Text.{ℤ}
use vps_safe_dashboard.Archive.Months.{parse_month}
use vps_safe_dashboard.Archive.Months.Recorded.{recorded, recorded-remain}
use vps_safe_dashboard.Archive.Month.{
  File, Slot, Env, ArchiveError, read_failed, has_data_failed, month_has_data, replace_copy,
  store_month, unrecord, remove_final, known_month, exists, look_up, remove_stale, archive_parsed,
  archive_month,
}
use vps_safe_dashboard.Archive.Month.Replaced.{
  IsSafe, IsArchived, IsWorking, IsFresh, Ends, fresh-IsSafe, archived-IsSafe, and_next-Ends,
  Ends-weak, attempt-Ends, if-Ends, replace_copy-Ends,
}

module _ {R : Type 0} (ts : R → ℤ) (month_start : ℕ → ℕ → ℤ) (main : Bytes → List R) (month : Bytes)
    (y m : ℕ) (k : Env R) where
  abbrev Safe : Slot R → Type 0
  Safe s = IsSafe ts month_start main month y m s

  abbrev Archived : Slot R → Type 0
  Archived s = IsArchived ts month_start main month y m s

  abbrev Fresh : Slot R → Type 0
  Fresh s = IsFresh ts month_start main month y m k s

  abbrev To : (Slot R → Type 0) → Slot R × Option ArchiveError → Type 0
  To Q r = Ends ts month_start main month y m k Q r

  -- A month that has rows is archived.
  abbrev IsDone : Slot R → Type 0
  IsDone s = Safe s × (month_has_data ts month_start main y m ≡ true → Archived s)

  data_or_none :
      (s : Slot R) (b : Bool)
      → month_has_data ts month_start main y m ≡ b
      → Safe s
      → To Archived (replace_copy ts month_start main k y m month s)
      → To IsDone (if b then replace_copy ts month_start main k y m month s else (s, none))
  data_or_none s true e safe h =
      Ends-weak ts month_start main month y m k Archived IsDone _
        (λ s' a. (archived-IsSafe ts month_start main month y m s' a, λ q. a)) h
  data_or_none s false e safe h = (safe, λ q. absurd cc)

  store_month-To :
      parse_month month ≡ some (y, m)
      → (s : Slot R) → Fresh s
      → To IsDone (store_month ts month_start main k y m month s)
  unfolding store_month
  store_month-To parsed s fresh =
      let safe = fresh-IsSafe ts month_start main month y m s fresh in
      if-Ends ts month_start main month y m k IsDone k.has_data_ok has_data_failed s _
        (λ w. w.has_data) safe
        (data_or_none s (month_has_data ts month_start main y m) refl safe
          (replace_copy-Ends ts month_start main month y m k s parsed fresh))

  abbrev IsClean : Slot R → Type 0
  IsClean s = Safe s × ((s.tmp_db ≡ none) × (s.tmp_gz ≡ none))

  whole_file :
      (s : Slot R) (o : Option (File R))
      → recorded s.meta month ≡ true
      → s.final ≡ o
      → exists ts month_start main k o ≡ true
      → IsClean s
      → Archived s
  whole_file s none r e b h = absurd cc
  whole_file s (some f) r e b h = (r, (h.1.0, (h.1.1, (f, (e, h.0 f r e)))))

  known_month-To :
      parse_month month ≡ some (y, m)
      → (a b : Bool) (s : Slot R) → recorded s.meta month ≡ a
      → (k.stat_ok && exists ts month_start main k s.final) ≡ b
      → IsClean s
      → To IsDone (known_month ts month_start main k y m month a b s)
  unfolding known_month unrecord remove_final
  known_month-To parsed true true s r e h =
      (h.0, λ q. whole_file s s.final r refl (and_true k.stat_ok _ e) h)
    where
      and_true : (a b : Bool) → (a && b) ≡ true → b ≡ true
      and_true true b p = p
      and_true false b p = cc
  known_month-To parsed true false s r e h =
      and_next-Ends ts month_start main month y m k Fresh IsDone _ _
        (attempt-Ends ts month_start main month y m k Fresh k.unrecord_ok _ _ _ (λ w. w.unrecords)
          h.0 (recorded-remain s.meta month))
        (store_month-To parsed)
  known_month-To parsed false true s r e h =
      and_next-Ends ts month_start main month y m k Fresh IsDone _ _
        (attempt-Ends ts month_start main month y m k Fresh k.remove_ok _ _ _ (λ w. w.removes) h.0
          r)
        (store_month-To parsed)
  known_month-To parsed false false s r e h = store_month-To parsed s r

  look_up-To :
      parse_month month ≡ some (y, m)
      → (s : Slot R) → IsClean s
      → To IsDone (look_up ts month_start main k y m month s)
  unfolding look_up
  look_up-To parsed s h =
      if-Ends ts month_start main month y m k IsDone k.read_ok read_failed s _ (λ w. w.read) h.0
        (known_month-To parsed _ _ s refl refl h)

  remove_stale-To : (s : Slot R) → Safe s → To IsClean (remove_stale ts month_start main k s)
  unfolding remove_stale
  remove_stale-To s safe =
      and_next-Ends ts month_start main month y m k (λ s'. Safe s' × (s'.tmp_db ≡ none)) IsClean _ _
        (attempt-Ends ts month_start main month y m k (λ s'. Safe s' × (s'.tmp_db ≡ none))
          k.stale_db_ok _ _ _ (λ w. w.stale_db) safe (safe, refl))
        (λ s' h.
          attempt-Ends ts month_start main month y m k IsClean k.stale_gz_ok _ _ _ (λ w. w.stale_gz)
            h.0 (h.0, (h.1, refl)))

  archive_month-To :
      parse_month month ≡ some (y, m)
      → (s : Slot R) → Safe s
      → To IsDone (archive_month ts month_start main k month s)
  unfolding archive_month archive_parsed
  archive_month-To parsed s safe = rw parsed (
      and_next-Ends ts month_start main month y m k IsClean IsDone _ _
        (and_next-Ends ts month_start main month y m k Safe IsClean _ _
          (attempt-Ends ts month_start main month y m k Safe k.mkdir_ok _ _ _ (λ w. w.mkdir) safe
            safe)
          remove_stale-To)
        (look_up-To parsed))

  ends_Safe : (r : Slot R × Option ArchiveError) → To IsDone r → Safe r.0
  ends_Safe (s, none) h = h.0
  ends_Safe (s, some e) h = h.0

  ends_Archived :
      (r : Slot R × Option ArchiveError)
      → To IsDone r
      → IsWorking ts month_start main month y m k
      → month_has_data ts month_start main y m ≡ true
      → (r.1 ≡ none) × Archived r.0
  ends_Archived (s, none) h w d = (refl, h.1 d)
  ends_Archived (s, some e) h w d = absurd (h.1 w)

  -- If a month that is recorded and has its file has a whole copy there, that is so again after
  -- ArchiveMonthDB, whichever of its operations fail and whatever they leave behind.
  pub archive_month-IsSafe :
      parse_month month ≡ some (y, m)
      → (s : Slot R) → IsSafe ts month_start main month y m s
      → IsSafe ts month_start main month y m (archive_month ts month_start main k month s).0
  archive_month-IsSafe parsed s safe =
      ends_Safe (archive_month ts month_start main k month s) (archive_month-To parsed s safe)

  -- From any state in which a recorded month with its file has a whole copy, so also from what failed
  -- runs have left: where no operation fails and the database has rows of the month, ArchiveMonthDB
  -- returns no error, the month is recorded, its file has all tables, each with as many rows as the
  -- database has of the month and with their latest time, and the temporary files are gone.
  pub archive_month_lem :
      parse_month month ≡ some (y, m)
      → (s : Slot R) → IsSafe ts month_start main month y m s
      → IsWorking ts month_start main month y m k
      → month_has_data ts month_start main y m ≡ true
      → ((archive_month ts month_start main k month s).1 ≡ none)
        × IsArchived ts month_start main month y m (archive_month ts month_start main k month s).0
  archive_month_lem parsed s safe w d =
      ends_Archived (archive_month ts month_start main k month s) (archive_month-To parsed s safe) w
        d

  file_exists :
      (o : Option (File R)) (f : File R) → o ≡ some f → exists ts month_start main k o ≡ true
  file_exists none f e = cc
  file_exists (some g) f e = refl

  abbrev cleared : Slot R → Option (File R) → Option (File R) → Slot R
  cleared s tmp_db tmp_gz = record s { tmp_db = tmp_db; tmp_gz = tmp_gz }

  -- Where no operation fails, ArchiveMonthDB of a month that is archived returns no error and changes
  -- nothing.
  pub archive_month_again :
      parse_month month ≡ some (y, m)
      → (s : Slot R) → IsArchived ts month_start main month y m s
      → IsWorking ts month_start main month y m k
      → archive_month ts month_start main k month s ≡ (s, none)
  unfolding archive_month archive_parsed remove_stale look_up known_month
  archive_month_again parsed s a w =
      rw
        (
          parsed,
          w.mkdir,
          w.stale_db,
          w.stale_gz,
          w.read,
          w.stat,
          a.0,
          file_exists s.final a.1.1.1.0 a.1.1.1.1.0,
        )
        (ap (λ (o : Option (File R)). (cleared s o none, none)) (sym a.1.0)
          ∙ ap (λ (o : Option (File R)). (cleared s s.tmp_db o, none)) (sym a.1.1.0))
