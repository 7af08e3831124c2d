-- ===== src/Store/Writer/CleanedKept.antt =====
-- A round of the retention keeps what its database operations, its reports and its yields keep.
use vps_safe_dashboard.Prelude.{
  ℕ, ◌+◌, ◌≡◌, Bool, true, false, ◌&&◌, Bool-cases, inl, inr, List, [], ◌∷◌, Bytes, Option, none,
  some, codes, ◌==◌,
}
use vps_safe_dashboard.Event.{Level}
use vps_safe_dashboard.Store.Database.{Database}
use vps_safe_dashboard.Store.Cleanup.{Cleanup}
use vps_safe_dashboard.Store.Cleanup.Ends.{cleanup_keeps}
use vps_safe_dashboard.Store.Writer.{
  Message, cleaned_events, cleaned_creds, cleanup_failed, Env, Writer, tell, yield,
}
use vps_safe_dashboard.Store.Writer.Retention.{
  Round, archived_tables, first_list, other_lists, count_of, delete_in, cleanup_table, clean_tables,
  told, clean_events, clean_creds, put_last, and_then, run_retention_once, report_failure,
  retention_step,
}

-- `Kept` is what an operation outside of transactions, a report and a yield keep.
module _ {F M : Type 0} (D : Database F M) (say : Message → M) (batch_size days cred_days : ℕ)
    (Kept : Writer D.Db F M → Type 0)
    (closed : (w : Writer D.Db F M) → Kept w → D.staged w.db ≡ none)
    (other_db : (w : Writer D.Db F M) (db : D.Db)
      → D.committed db ≡ D.committed w.db
      → D.staged db ≡ none
      → Kept w
      → Kept (record w { db = db }))
    (tell-Kept : (now : ℕ) (l : Level) (m : Message) (w : Writer D.Db F M)
      → Kept w
      → Kept (record w { ch = tell say now l m w.ch }))
    (yield-Kept : (e : Env) (w : Writer D.Db F M)
      → Kept w
      → Kept (yield D say batch_size e w)) where
  open D use {
    Db, committed, staged, delete_old, put_meta, committed-delete_old, staged-delete_old,
    committed-put_meta, staged-put_meta,
  }

  delete_in-Kept :
      (table : Bytes) (cutoff : ℕ) (w : Writer Db F M)
      → Kept w
      → Kept (delete_in D say batch_size days cred_days table cutoff w).0
  unfolding delete_in
  delete_in-Kept table cutoff w h =
      other_db w (delete_old table cutoff w.db).0 (committed-delete_old table cutoff w.db)
        (staged-delete_old table cutoff w.db (closed w h)) h

  cleanup_table-Kept :
      (table : Bytes) (cutoff : ℕ) (es : List Env) (w : Writer Db F M)
      → Kept w
      → Kept (cleanup_table D say batch_size days cred_days table cutoff es w).0
  unfolding cleanup_table
  cleanup_table-Kept table cutoff es w =
      cleanup_keeps (delete_in D say batch_size days cred_days table cutoff)
        (yield D say batch_size) Kept (delete_in-Kept table cutoff) yield-Kept es 0 w

  next_table-Kept :
      (w' : Writer Db F M) (o : Option ℕ) (later : ℕ → Writer Db F M × Option ℕ)
      → Kept w'
      → ((n : ℕ) → Kept (later n).0)
      → Kept (elim o as (λ x. Writer Db F M × Option ℕ) [ none ↦ (w', none) | some n ↦ later n ]).0
  next_table-Kept w' none later h keeps = h
  next_table-Kept w' (some n) later h keeps = keeps n

  clean_tables-Kept :
      (ts : List Bytes) (cutoff : ℕ) (ess : List (List Env)) (total : ℕ) (w : Writer Db F M)
      → Kept w
      → Kept (clean_tables D say batch_size days cred_days ts cutoff ess total w).0
  unfolding clean_tables
  clean_tables-Kept [] cutoff ess total w h = h
  clean_tables-Kept (t ∷ ts) cutoff ess total w h =
      let r : Writer Db F M × Cleanup =
        cleanup_table D say batch_size days cred_days t cutoff (first_list ess) w in
      let kept : Kept r.0 = cleanup_table-Kept t cutoff (first_list ess) w h in
      next_table-Kept r.0 (count_of r.1)
        (λ n.
          clean_tables D say batch_size days cred_days ts cutoff (other_lists ess) (total + n) r.0)
        kept (λ n. clean_tables-Kept ts cutoff (other_lists ess) (total + n) r.0 kept)

  told-Kept :
      (now : ℕ) (text : ℕ → Message) (r : Writer Db F M × Option ℕ)
      → Kept r.0
      → Kept (told D say batch_size days cred_days now text r).0
  unfolding told
  told-Kept now text (w, none) h = h
  told-Kept now text (w, some n) h = tell-Kept now Level.info (text n) w h

  clean_events-Kept :
      (r : Round) (w : Writer Db F M)
      → Kept w
      → Kept (clean_events D say batch_size days cred_days r w).0
  unfolding clean_events
  clean_events-Kept r w h = elim (Bool-cases (days == 0)) [
    | inl off ↦ rw off h
    | inr on ↦ rw on (
        told-Kept r.now (λ n. cleaned_events n days) _
          (clean_tables-Kept archived_tables r.cutoff r.tables 0 w h))
  ]

  clean_creds-Kept :
      (r : Round) (w : Writer Db F M)
      → Kept w
      → Kept (clean_creds D say batch_size days cred_days r w).0
  unfolding clean_creds
  clean_creds-Kept r w h = elim (Bool-cases (cred_days == 0)) [
    | inl off ↦ rw off h
    | inr on ↦ rw on (
        told-Kept r.now (λ n. cleaned_creds n cred_days) _
          (clean_tables-Kept (codes "cred_events" ∷ []) r.cred_cutoff (r.creds ∷ []) 0 w h))
  ]

  put_last-Kept :
      (r : Round) (w : Writer Db F M)
      → Kept w
      → Kept (put_last D say batch_size days cred_days r w).0
  unfolding put_last
  put_last-Kept r w h =
      other_db w (put_meta _ _ w.db).0 (committed-put_meta _ _ w.db)
        (staged-put_meta _ _ w.db (closed w h)) h

  and_then-Kept :
      (r : Writer Db F M × Bool) (f : Writer Db F M → Writer Db F M × Bool)
      → Kept r.0
      → ((w : Writer Db F M) → Kept w → Kept (f w).0)
      → Kept (and_then D say batch_size days cred_days r f).0
  unfolding and_then
  and_then-Kept (w, true) f h keeps = keeps w h
  and_then-Kept (w, false) f h keeps = h

  run_retention_once-Kept :
      (r : Round) (w : Writer Db F M)
      → Kept w
      → Kept (run_retention_once D say batch_size days cred_days r w).0
  unfolding run_retention_once
  run_retention_once-Kept r w h = elim (Bool-cases (days == 0 && cred_days == 0)) [
    | inl off ↦ rw off h
    | inr on ↦ rw on (
        and_then-Kept _ (put_last D say batch_size days cred_days r)
          (and_then-Kept _ (clean_creds D say batch_size days cred_days r) (clean_events-Kept r w h)
            (clean_creds-Kept r))
          (put_last-Kept r))
  ]

  report_failure-Kept :
      (now : ℕ) (r : Writer Db F M × Bool)
      → Kept r.0
      → Kept (report_failure D say batch_size days cred_days now r)
  unfolding report_failure
  report_failure-Kept now (w, true) h = h
  report_failure-Kept now (w, false) h = tell-Kept now Level.error cleanup_failed w h

  pub retention_step-Kept :
      (r : Round) (w : Writer Db F M)
      → Kept w
      → Kept (retention_step D say batch_size days cred_days r w).0
  unfolding retention_step
  retention_step-Kept r w h =
      report_failure-Kept r.now (run_retention_once D say batch_size days cred_days r w)
        (run_retention_once-Kept r w h)
