-- ===== src/Tests/Stores.antt =====
-- internal/store: batches, the loop of the writer and the cleanup, on a database in memory.
use vps_safe_dashboard.Prelude.{
  ℕ, ◌-◌, ◌≡◌, refl, Bool, true, false, List, [], ◌∷◌, ◌++◌, Option, none, some, codes, min, arith,
  if◌then◌else◌,
}
use vps_safe_dashboard.Event.{BanEvent, try_send, report_sys}
use vps_safe_dashboard.Event.Channels.{
  Kind, Event, new_channels, drain, in_flight, drain_round, after_round,
}
use vps_safe_dashboard.Store.Items.{EventItem, enqueue, insert_stmts, args_of}
use vps_safe_dashboard.Store.Database.{Database, Row}
use vps_safe_dashboard.Store.Batch.{insert_args, insert_as, insert_items, end_batch, write_batch}
use vps_safe_dashboard.Store.Batch.Atomic.{rows_of, IsAtomic, write_batch-IsAtomic}
use vps_safe_dashboard.Store.Cleanup.{cleanup}
use vps_safe_dashboard.Store.Cleanup.Ends.{IsCleaned, cleanup_lem}
use vps_safe_dashboard.Store.Writer.{
  Message, Env, Writer, new_writer, item, tell, written, after_write, flush, flush_full,
  enqueue_item, enqueue_all, drained, drain_into, keep_error, yield,
}
use vps_safe_dashboard.Store.Writer.Kept.{content}
use vps_safe_dashboard.Store.Kinds.{rows_for}
use vps_safe_dashboard.Store.Writer.Retention.{
  Round, delete_in, cleanup_table, clean_tables, told, clean_events, clean_creds, put_last,
  and_then, run_retention_once, report_failure, retention_step,
}
use vps_safe_dashboard.Store.Writer.Loop.{
  Input, produced, received, retention, cancelled, Ending, stopped, take_head, send, handle,
  take_one, after_branch, finish, step, run,
}
use vps_safe_dashboard.Store.Batch.Works.{IsWorking}
use vps_safe_dashboard.Store.Writer.Loop.Completes.{run_completes}
use vps_safe_dashboard.Store.Writer.Loop.Lossless.{value_rows, arrivals, run_keeps, run_lossless}

-- What is committed, what the open transaction has, and how many rows are old.
abbrev Memory : Type 0
Memory = List (Row ℕ Message) × (Option (List (Row ℕ Message)) × ℕ)

abbrev start : Memory → Memory × Bool
start (c, (none, n)) = ((c, (some [], n)), true)
start (c, (some rs, n)) = ((c, (some rs, n)), false)

abbrev add : Row ℕ Message → Memory → Memory × Bool
add r (c, (none, n)) = ((c, (none, n)), false)
add r (c, (some rs, n)) = ((c, (some (rs ++ r ∷ []), n)), true)

abbrev save : Memory → Memory × Bool
save (c, (none, n)) = ((c, (none, n)), false)
save (c, (some rs, n)) = ((c ++ rs, (none, n)), true)

abbrev undo : Memory → Memory
undo (c, (o, n)) = (c, (none, n))

-- At most two rows at once.
abbrev prune : Memory → Memory × Option ℕ
prune (c, (o, n)) = ((c, (o, n - min 2 n)), some (min 2 n))

committed-start : (d : Memory) → (start d).0.0 ≡ d.0
committed-start (c, (none, n)) = refl
committed-start (c, (some rs, n)) = refl

staged-start :
    (d : Memory) → d.1.0 ≡ none → (start d).0.1.0 ≡ (if (start d).1 then some [] else none)
staged-start (c, (none, n)) h = refl
staged-start (c, (some rs, n)) h = cc

committed-add : (r : Row ℕ Message) (d : Memory) → (add r d).0.0 ≡ d.0
committed-add r (c, (none, n)) = refl
committed-add r (c, (some rs, n)) = refl

staged-add :
    (r : Row ℕ Message) (d : Memory) (rs : List (Row ℕ Message))
    → d.1.0 ≡ some rs
    → (add r d).1 ≡ true
    → (add r d).0.1.0 ≡ some (rs ++ r ∷ [])
staged-add r (c, (none, n)) rs h e = cc
staged-add r (c, (some rs', n)) rs h e = cc

committed-save :
    (d : Memory) (rs : List (Row ℕ Message))
    → d.1.0 ≡ some rs
    → (save d).0.0 ≡ (if (save d).1 then d.0 ++ rs else d.0)
committed-save (c, (none, n)) rs h = refl
committed-save (c, (some rs', n)) rs h = cc

staged-save : (d : Memory) → (save d).1 ≡ true → (save d).0.1.0 ≡ none
staged-save (c, (none, n)) h = refl
staged-save (c, (some rs, n)) h = refl

abbrev memory : Database ℕ Message
memory = record {
  Db = Memory;
  committed = λ d. d.0;
  staged = λ d. d.1.0;
  begin = start;
  insert = add;
  commit = save;
  rollback = undo;
  delete_old = λ t c d. prune d;
  put_meta = λ k v d. (d, true);
  committed-begin = committed-start;
  staged-begin = staged-start;
  committed-insert = committed-add;
  staged-insert = staged-add;
  committed-commit = committed-save;
  staged-commit = staged-save;
  committed-rollback = λ d. refl;
  staged-rollback = λ d. refl;
  committed-delete_old = λ t c d. refl;
  staged-delete_old = λ t c d h. h;
  committed-put_meta = λ k v d. refl;
  staged-put_meta = λ k v d h. h;
}

start-begins : (d : Memory) → d.1.0 ≡ none → (start d).1 ≡ true
start-begins (c, (none, n)) h = refl
start-begins (c, (some rs, n)) h = absurd cc

add-inserts :
    (r : Row ℕ Message) (d : Memory) (rs : List (Row ℕ Message))
    → d.1.0 ≡ some rs
    → (add r d).1 ≡ true
add-inserts r (c, (none, n)) rs h = absurd cc
add-inserts r (c, (some us, n)) rs h = refl

save-commits : (d : Memory) (rs : List (Row ℕ Message)) → d.1.0 ≡ some rs → (save d).1 ≡ true
save-commits (c, (none, n)) rs h = absurd cc
save-commits (c, (some us, n)) rs h = refl

memory-IsWorking : IsWorking memory
memory-IsWorking = record { begins = start-begins; inserts = add-inserts; commits = save-commits }

abbrev empty : Memory
empty = ([], (none, 5))

abbrev ban : ℕ → BanEvent
ban n = record { ts = n; ip = n; type = codes "ban"; jail = codes "sshd" }

abbrev items : List (EventItem ℕ Message)
items = item Kind.f2b (Event.f2b (ban 1)) ∷ item Kind.f2b (Event.f2b (ban 2)) ∷ []

write_batch-items : (write_batch memory items empty).1 ≡ none
unfolding write_batch insert_items insert_as insert_args end_batch args_of insert_stmts
write_batch-items = refl

write_batch_example : IsAtomic memory (rows_of items) empty (write_batch memory items empty)
write_batch_example = write_batch-IsAtomic memory items empty refl

cleanup_example :
    IsCleaned prune
      (λ (e : ℕ) d. d)
      (λ d. d.1.1)
      0
      5
      (cleanup prune (λ (e : ℕ) d. d) (1 ∷ 2 ∷ 3 ∷ 4 ∷ 5 ∷ 6 ∷ []) 0 empty)
cleanup_example =
    cleanup_lem prune (λ (e : ℕ) d. d) (λ d. d.1.1) 2 (omega arith) (λ s. refl) (λ s. refl)
      (λ e s. refl) (1 ∷ 2 ∷ 3 ∷ 4 ∷ 5 ∷ 6 ∷ []) 0 empty (omega arith)

abbrev env : Env
env = record { now = 0; chmod_ok = true }

-- Three bans are sent, two of them are received and committed as a full batch, then a round of the
-- retention, and the end.
abbrev round : Round
round = record {
  now = 0;
  cutoff = 0;
  cred_cutoff = 0;
  tables = (env ∷ env ∷ env ∷ env ∷ []) ∷ [];
  creds = env ∷ [];
}

abbrev arriving : List (Input ℕ Message)
arriving =
    produced (Event.f2b (ban 1))
    ∷ produced (Event.f2b (ban 2))
    ∷ received Kind.f2b env
    ∷ received Kind.f2b env
    ∷ produced (Event.f2b (ban 3))
    ∷ retention round env
    ∷ []

abbrev inputs : List (Input ℕ Message)
inputs = arriving ++ cancelled env ∷ []

abbrev begun : Writer Memory ℕ Message
begun = new_writer empty (new_channels 4)

abbrev ended : Writer Memory ℕ Message
ended = (run memory (λ m. m) 2 7 0 inputs begun).0

run-inputs : (run memory (λ m. m) 2 7 0 inputs begun).1 ≡ stopped
unfolding run step send try_send new_channels take_head take_one handle enqueue_item enqueue
    after_branch flush_full flush after_write written write_batch insert_items insert_as insert_args
    end_batch args_of insert_stmts retention_step run_retention_once clean_events clean_tables
    cleanup_table cleanup delete_in told tell report_sys and_then clean_creds put_last
    report_failure yield drain_into drained drain enqueue_all keep_error finish in_flight
    drain_round after_round
run-inputs = refl

run_keeps_example :
    content memory (λ m. m) 2 Kind.f2b refl ended
    ≡ (rows_for Kind.f2b [] ++ value_rows memory (λ m. m) 2 7 0 Kind.f2b refl [])
      ++ value_rows memory
          (λ m. m)
          2
          7
          0
          Kind.f2b
          refl
          (arrivals memory (λ m. m) 2 7 0 Kind.f2b refl inputs begun)
unfolding new_channels
run_keeps_example = run_keeps memory (λ m. m) 2 7 0 Kind.f2b refl inputs empty (new_channels 4) refl

run_lossless_example :
    rows_for Kind.f2b ended.db.0
    ≡ (rows_for Kind.f2b [] ++ value_rows memory (λ m. m) 2 7 0 Kind.f2b refl [])
      ++ value_rows memory
          (λ m. m)
          2
          7
          0
          Kind.f2b
          refl
          (arrivals memory (λ m. m) 2 7 0 Kind.f2b refl inputs begun)
unfolding new_channels
run_lossless_example =
    run_lossless memory (λ m. m) 2 7 0 Kind.f2b refl inputs empty (new_channels 4) refl run-inputs

-- The same inputs again, with the end of the context behind them.
abbrev completed : Writer Memory ℕ Message × Ending
completed = run memory (λ m. m) 2 7 0 (arriving ++ cancelled env ∷ []) begun

run_completes_example :
    (completed.1 ≡ stopped)
    × (rows_for Kind.f2b completed.0.db.0
        ≡ (rows_for Kind.f2b [] ++ value_rows memory (λ m. m) 2 7 0 Kind.f2b refl [])
          ++ value_rows memory
              (λ m. m)
              2
              7
              0
              Kind.f2b
              refl
              (arrivals memory (λ m. m) 2 7 0 Kind.f2b refl (arriving ++ cancelled env ∷ []) begun))
unfolding new_channels
run_completes_example =
    run_completes memory memory-IsWorking (λ m. m) 2 7 0 Kind.f2b refl arriving env empty
      (new_channels 4) refl
