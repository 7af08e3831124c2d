-- ===== src/Store/Writer.antt =====
-- internal/store/store.go: Run, the loop of the one writer. What `select` chooses, the clock, the
-- chmod of the database files and the end of the context are inputs of a step.
pub mod Kept
pub mod Sound
pub mod Retention
pub mod CleanedKept
pub mod Loop
use vps_safe_dashboard.Prelude.{
  ℕ, suc, ◌+◌, Bool, true, false, ◌||◌, List, [], ◌∷◌, ◌++◌, Option, none, some, ◌==◌, leb,
  if◌then◌else◌, take,
}
use vps_safe_dashboard.Event.{Chan, Source, Level, SystemEvent, report_sys}
use vps_safe_dashboard.Event.Channels.{Kind, Event, Channels, Delivery, drain, in_flight}
use vps_safe_dashboard.Store.Items.{EventItem, enqueue}
use vps_safe_dashboard.Store.Database.{Database}
use vps_safe_dashboard.Store.Batch.{WriteError, write_batch}

-- The texts that the store reports, with the counts in them.
pub data Message : Type 0 where
  chmod_failed : Message
  cleaned_events : ℕ → ℕ → Message
  cleaned_creds : ℕ → ℕ → Message
  cleanup_failed : Message
  archive_gap : ℕ → ℕ → Message

-- What a flush reads of its surroundings: the clock, and whether the chmod succeeds.
pub record Env : Type 0 where
  pub now : ℕ
  pub chmod_ok : Bool

-- The variables of Run, with the database and the channels. `n_in_batch` items are pending.
pub record Writer (Db F M : Type 0) : Type 0 where
  pub db : Db
  pub pending : List (EventItem F M)
  pub n_in_batch : ℕ
  pub wal_chmod_done : Bool
  pub yield_err : Option WriteError
  pub ch : Channels F M

abbrev pub new_writer : {Db F M : Type 0} → Db → Channels F M → Writer Db F M
new_writer db ch = record {
  db = db;
  pending = [];
  n_in_batch = 0;
  wal_chmod_done = false;
  yield_err = none;
  ch = ch;
}

abbrev pub item : {F M : Type 0} → Kind → Event F M → EventItem F M
item k v = record { kind = some k; v = v }

module _ {F M : Type 0} (say : Message → M) where
  -- event.ReportSys(s.ch.System, "store", level, message)
  unfoldable pub tell : ℕ → Level → Message → Channels F M → Channels F M
  tell now level m c = elim (report_sys now Source.store level (say m) (some c.system)) [
    | none ↦ c
    | some ch ↦ record c { system = ch }
  ]

module _ {F M : Type 0} (D : Database F M) (say : Message → M) (batch_size : ℕ) where
  open D use {Db}

  abbrev pub W : Type 0
  W = Writer Db F M

  -- After the first batch that was written, the files beside the database get their permissions.
  unfoldable pub written : Env → W → W
  written k w = record w {
    pending = [];
    n_in_batch = 0;
    wal_chmod_done = true;
    ch =
        if w.wal_chmod_done || k.chmod_ok
        then w.ch
        else tell say k.now Level.warn chmod_failed w.ch;
  }

  unfoldable pub after_write : Env → W → Db × Option WriteError → W × Option WriteError
  after_write k w (db, some e) = (record w { db = db }, some e)
  after_write k w (db, none) = (written k (record w { db = db }), none)

  unfoldable pub flush : Env → W → W × Option WriteError
  flush k w =
      if w.n_in_batch == 0
      then (w, none)
      else after_write k w (write_batch D (take w.n_in_batch w.pending) w.db)

  -- if nInBatch >= s.batchSize { flush() }
  unfoldable pub flush_full : Env → W → W × Option WriteError
  flush_full k w = if leb batch_size w.n_in_batch then flush k w else (w, none)

  unfoldable pub enqueue_item : Kind → Event F M → W → W
  enqueue_item j v w =
      let (pending, n) = enqueue (item j v) (w.pending, w.n_in_batch) in
      record w { pending = pending; n_in_batch = n }

  unfoldable pub enqueue_all : List (Delivery F M) → W → W
  enqueue_all [] w = w
  enqueue_all ((j, v) ∷ ds) w = enqueue_all ds (enqueue_item j v w)

  unfoldable pub drained : Option (Channels F M × List (Delivery F M)) → W → W
  drained none w = w
  drained (some (ch, out)) w = enqueue_all out (record w { ch = ch })

  -- drainInto: with one round more than events in flight, Drain ends.
  unfoldable pub drain_into : W → W
  drain_into w = drained (drain (suc (in_flight w.ch)) w.ch) w

  -- An error of the flush is kept: the first one.
  unfoldable pub keep_error : W × Option WriteError → W
  keep_error (w, none) = w
  keep_error (w, some e) = elim w.yield_err [
    | none ↦ record w { yield_err = some e }
    | some old ↦ w
  ]

  unfoldable pub yield : Env → W → W
  yield k w = keep_error (flush_full k (drain_into w))
