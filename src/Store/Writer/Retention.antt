-- ===== src/Store/Writer/Retention.antt =====
-- internal/store/retention.go: a round of the retention, inside the loop of the writer. The cutoffs
-- come from the calendar of the local time zone, and are inputs; a number of days that is not positive
-- is 0 here.
use vps_safe_dashboard.Prelude.{
  ℕ, ◌+◌, Bool, true, false, ◌&&◌, ◌||◌, List, [], ◌∷◌, Bytes, Option, none, some, codes, ◌==◌, leb,
  if◌then◌else◌,
}
use vps_safe_dashboard.Event.{Level}
use vps_safe_dashboard.Event.Channels.{Channels}
use vps_safe_dashboard.Text.{itoa}
use vps_safe_dashboard.Store.Database.{Database}
use vps_safe_dashboard.Store.Batch.{WriteError}
use vps_safe_dashboard.Store.Cleanup.{Cleanup, cleaned, failed, cancelled, cleanup}
use vps_safe_dashboard.Store.Writer.{
  Message, cleaned_events, cleaned_creds, cleanup_failed, archive_gap, Env, Writer, tell, yield,
}

-- archive.ArchivedTables
abbrev pub archived_tables : List Bytes
archived_tables =
    codes "resources"
    ∷ codes "connections"
    ∷ codes "ssh_attempts"
    ∷ codes "firewall_events"
    ∷ codes "ban_events"
    ∷ codes "system_events"
    ∷ []

-- What a round reads: the clock, the two cutoffs, and for each table the surroundings of its batches
-- before the context is cancelled.
pub record Round : Type 0 where
  pub now : ℕ
  pub cutoff : ℕ
  pub cred_cutoff : ℕ
  pub tables : List (List Env)
  pub creds : List Env

abbrev pub first_list : List (List Env) → List Env
first_list [] = []
first_list (es ∷ ess) = es

abbrev pub other_lists : List (List Env) → List (List Env)
other_lists [] = []
other_lists (es ∷ ess) = ess

abbrev pub count_of : Cleanup → Option ℕ
count_of (cleaned n) = some n
count_of (failed n) = none
count_of (cancelled n) = none

-- warnRetentionArchiveGap, at the start of Run.
unfoldable pub warn_retention_archive_gap :
    {F M : Type 0} → (Message → M) → ℕ → ℕ → ℕ → Channels F M → Channels F M
warn_retention_archive_gap say now retention_days copy_after_days c =
    if retention_days == 0 || leb (copy_after_days + 31) retention_days
    then c
    else tell say now Level.warn (archive_gap retention_days (copy_after_days + 31)) c

module _ {F M : Type 0} (D : Database F M) (say : Message → M) (batch_size : ℕ)
    (retention_days cred_retention_days : ℕ) where
  open D use {Db, delete_old, put_meta}

  unfoldable pub delete_in : Bytes → ℕ → Writer Db F M → Writer Db F M × Option ℕ
  delete_in table cutoff w = let (db, n) = delete_old table cutoff w.db in (record w { db = db }, n)

  unfoldable pub cleanup_table : Bytes → ℕ → List Env → Writer Db F M → Writer Db F M × Cleanup
  cleanup_table table cutoff es w = cleanup (delete_in table cutoff) (yield D say batch_size) es 0 w

  -- The tables in turn; `none` is an error, which ends the round.
  unfoldable pub clean_tables :
      List Bytes → ℕ → List (List Env) → ℕ → Writer Db F M → Writer Db F M × Option ℕ
  clean_tables [] cutoff ess total w = (w, some total)
  clean_tables (t ∷ ts) cutoff ess total w =
      let (w', r) = cleanup_table t cutoff (first_list ess) w in
      elim (count_of r) [
        | none ↦ (w', none)
        | some n ↦ clean_tables ts cutoff (other_lists ess) (total + n) w'
      ]

  -- The report of a part that was cleaned, or the error of one that was not.
  unfoldable pub told : ℕ → (ℕ → Message) → Writer Db F M × Option ℕ → Writer Db F M × Bool
  told now text (w, none) = (w, false)
  told now text (w, some n) = (record w { ch = tell say now Level.info (text n) w.ch }, true)

  unfoldable pub clean_events : Round → Writer Db F M → Writer Db F M × Bool
  clean_events r w =
      if retention_days == 0
      then (w, true)
      else told r.now (λ n. cleaned_events n retention_days)
          (clean_tables archived_tables r.cutoff r.tables 0 w)

  unfoldable pub clean_creds : Round → Writer Db F M → Writer Db F M × Bool
  clean_creds r w =
      if cred_retention_days == 0
      then (w, true)
      else told r.now (λ n. cleaned_creds n cred_retention_days)
          (clean_tables (codes "cred_events" ∷ []) r.cred_cutoff (r.creds ∷ []) 0 w)

  unfoldable pub put_last : Round → Writer Db F M → Writer Db F M × Bool
  put_last r w =
      let (db, ok) = put_meta (codes "last_retention_ts") (itoa r.now) w.db in
      (record w { db = db }, ok)

  -- A part of the round after another one, if that had no error.
  unfoldable pub and_then :
      Writer Db F M × Bool → (Writer Db F M → Writer Db F M × Bool) → Writer Db F M × Bool
  and_then (w, true) f = f w
  and_then (w, false) f = (w, false)

  unfoldable pub run_retention_once : Round → Writer Db F M → Writer Db F M × Bool
  run_retention_once r w =
      if retention_days == 0 && cred_retention_days == 0
      then (w, true)
      else and_then (and_then (clean_events r w) (clean_creds r)) (put_last r)

  unfoldable pub report_failure : ℕ → Writer Db F M × Bool → Writer Db F M
  report_failure now (w, true) = w
  report_failure now (w, false) = record w { ch = tell say now Level.error cleanup_failed w.ch }

  -- An error of a flush between the batches ends Run.
  unfoldable pub retention_step : Round → Writer Db F M → Writer Db F M × Option WriteError
  retention_step r w = let w' = report_failure r.now (run_retention_once r w) in (w', w'.yield_err)
