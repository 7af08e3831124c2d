-- ===== src/Store/Writer/Loop/Lossless.antt =====
-- Nothing is lost: what producers have sent is in the database, pending, or in its channel, in its
-- order; and where Run has ended without an error, in the database.
use mathlib.Core.List.{append_assoc, append-nil}
use vps_safe_dashboard.Prelude.{
  ℕ, ◌≡◌, refl, sym, ap, ◌∙◌, List, [], ◌∷◌, ◌++◌, Option, none, some, arith,
}
use vps_safe_dashboard.Event.Channels.{Kind, Event, Channels}
use vps_safe_dashboard.Event.Channels.Fifo.{pending}
use vps_safe_dashboard.Store.Items.{EventItem}
use vps_safe_dashboard.Store.Database.{Database, Row}
use vps_safe_dashboard.Store.Batch.{WriteError}
use vps_safe_dashboard.Store.Batch.Atomic.{rows_of}
use vps_safe_dashboard.Store.Kinds.{
  rows_for, items_of, items_rows-append, take_head_lem, sent, pending-send,
}
use vps_safe_dashboard.Store.Writer.{Message, Env, Writer, flush, drain_into, new_writer}
use vps_safe_dashboard.Store.Writer.Retention.{retention_step}
use vps_safe_dashboard.Store.Writer.CleanedKept.{retention_step-Kept}
use vps_safe_dashboard.Store.Writer.Kept.{
  IsOther, Holds, content, tell-Holds, yield-Holds, flush-IsFlushed, flush_ch, drain_into-Holds,
}
use vps_safe_dashboard.Store.Writer.Loop.{
  Input, produced, ticked, received, retention, cancelled, Ending, running, stopped, failed,
  take_head, send, take_one, after_branch, finish, step, run,
}
use vps_safe_dashboard.Store.Writer.Loop.Handled.{take_one-Kept, after_branch-Kept}

module _ {F M : Type 0} (D : Database F M) (say : Message → M) (batch_size days cred_days : ℕ)
    (k : Kind) (other : IsOther k) where
  open D use {Db, committed, staged}

  abbrev Kept : List (Row F M) → Writer Db F M → Type 0
  Kept rows w = Holds D say batch_size k other rows w

  -- The rows of values of kind `k`.
  abbrev pub value_rows : List (Event F M) → List (Row F M)
  value_rows vs = rows_for k (rows_of (items_of k vs))

  -- The events of kind `k` that an input puts into the channel, and those that all inputs do before
  -- Run ends.
  abbrev pub arrived : Input F M → Writer Db F M → List (Event F M)
  arrived (produced v) w = sent k v w.ch
  arrived i w = []

  unfoldable pub arrivals : List (Input F M) → Writer Db F M → List (Event F M)
  arrivals [] w = []
  arrivals (i ∷ is) w =
      let (w', e) = step D say batch_size days cred_days i w in
      let later = arrivals is w' in
      arrived i w ++ elim e [ running ↦ later | stopped ↦ [] | failed err ↦ [] ]

  produced-Kept :
      (rows : List (Row F M)) (v : Event F M) (w : Writer Db F M)
      → Kept rows w
      → Kept (rows ++ value_rows (sent k v w.ch)) (record w { ch = send v w.ch })
  produced-Kept rows v w h = record {
    closed = h.closed;
    counted = h.counted;
    held =
        rw (pending-send k v w.ch, items_rows-append k (pending k w.ch) (sent k v w.ch))
          (sym (
            ap (λ (l : List (Row F M)). l ++ value_rows (sent k v w.ch)) (sym h.held)
            ∙ append_assoc (rows_for k (committed w.db)) _ _
            ∙ ap (λ (l : List (Row F M)). rows_for k (committed w.db) ++ l)
                (append_assoc (rows_for k (rows_of w.pending)) _ _)));
  }

  finish-Kept :
      (rows : List (Row F M)) (r : Writer Db F M × Option WriteError)
      → Kept rows r.0
      → Kept rows (finish D say batch_size days cred_days r).0
  unfolding finish
  finish-Kept rows (w, none) h = h
  finish-Kept rows (w, some e) h = h

  no_more :
      (rows : List (Row F M)) (w : Writer Db F M) → Kept rows w → Kept (rows ++ value_rows []) w
  unfolding rows_of rows_for
  no_more rows w h = rw (append-nil rows) h

  step-Kept :
      (rows : List (Row F M)) (i : Input F M) (w : Writer Db F M)
      → Kept rows w
      → Kept (rows ++ value_rows (arrived i w)) (step D say batch_size days cred_days i w).0
  unfolding step
  step-Kept rows (produced v) w h = produced-Kept rows v w h
  step-Kept rows (ticked e) w h = no_more rows _ (
      after_branch-Kept D say batch_size days cred_days k other rows e (flush D say batch_size e w)
        ((flush-IsFlushed D say batch_size k other rows e w h).0))
  step-Kept rows (received j e) w h = no_more rows _ (
      after_branch-Kept D say batch_size days cred_days k other rows e
        (take_one D say batch_size days cred_days j (take_head j w.ch) w)
        (take_one-Kept D say batch_size days cred_days k other rows j w (take_head j w.ch)
          (take_head_lem k j w.ch) h))
  step-Kept rows (retention r e) w h = no_more rows _ (
      after_branch-Kept D say batch_size days cred_days k other rows e
        (retention_step D say batch_size days cred_days r w)
        (retention_step-Kept D say batch_size days cred_days (Kept rows) (λ w h. h.closed)
          (λ w db c s h. record { closed = s; counted = h.counted; held = rw c (h.held) })
          (tell-Holds D say batch_size k other rows) (yield-Holds D say batch_size k other rows) r w
          h))
  step-Kept rows (cancelled e) w h = no_more rows _ (
      finish-Kept rows (flush D say batch_size e (drain_into D say batch_size w)) (
        (flush-IsFlushed D say batch_size k other rows e (drain_into D say batch_size w)
          ((drain_into-Holds D say batch_size k other rows w h).0)).0))

  later_Kept :
      (rows : List (Row F M)) (vs us : List (Event F M)) (w : Writer Db F M)
      → Kept ((rows ++ value_rows vs) ++ value_rows us) w
      → Kept (rows ++ value_rows (vs ++ us)) w
  later_Kept rows vs us w h =
      rw (items_rows-append k vs us, ← append_assoc rows (value_rows vs) (value_rows us)) h

  -- The step of the induction, by how the first input ends.
  continue_Kept :
      (rows : List (Row F M)) (vs us : List (Event F M)) (w' : Writer Db F M) (e : Ending)
      (rest : Writer Db F M × Ending)
      → Kept (rows ++ value_rows vs) w'
      → Kept ((rows ++ value_rows vs) ++ value_rows us) rest.0
      → Kept
          (rows ++ value_rows (vs ++ elim e [ running ↦ us | stopped ↦ [] | failed err ↦ [] ]))
          (elim e as (λ x. Writer Db F M × Ending) [
            | running ↦ rest
            | stopped ↦ (w', stopped)
            | failed err ↦ (w', failed err)
          ]).0
  continue_Kept rows vs us w' running rest h l = later_Kept rows vs us rest.0 l
  continue_Kept rows vs us w' stopped rest h l = rw (append-nil vs) h
  continue_Kept rows vs us w' (failed err) rest h l = rw (append-nil vs) h

  run-Kept :
      (rows : List (Row F M)) (is : List (Input F M)) (w : Writer Db F M)
      → Kept rows w
      → Kept (rows ++ value_rows (arrivals is w)) (run D say batch_size days cred_days is w).0
  unfolding run arrivals
  run-Kept rows [] w h = no_more rows w h
  run-Kept rows (i ∷ is) w h =
      let (w', e) = step D say batch_size days cred_days i w in
      let kept : Kept (rows ++ value_rows (arrived i w)) w' = step-Kept rows i w h in
      continue_Kept rows (arrived i w) (arrivals is w') w' e
        (run D say batch_size days cred_days is w') kept
        (run-Kept (rows ++ value_rows (arrived i w)) is w' kept)

  -- Where Run has returned without an error, nothing is pending, and the channel is empty.
  abbrev IsEmpty : Writer Db F M → Type 0
  IsEmpty w = (w.pending ≡ []) × (pending k w.ch ≡ [])

  finish-IsEmpty :
      (r : Writer Db F M × Option WriteError)
      → (r.1 ≡ none → r.0.pending ≡ [])
      → pending k r.0.ch ≡ []
      → (finish D say batch_size days cred_days r).1 ≡ stopped
      → IsEmpty (finish D say batch_size days cred_days r).0
  unfolding finish
  finish-IsEmpty (w, none) h e q = (h refl, e)
  finish-IsEmpty (w, some err) h e q = absurd cc

  not_stopped :
      (e : Env) (r : Writer Db F M × Option WriteError)
      → (after_branch D say batch_size days cred_days e r).1 ≡ stopped
      → IsEmpty (after_branch D say batch_size days cred_days e r).0
  unfolding after_branch
  not_stopped e (w, some err) q = absurd cc
  not_stopped e (w, none) q = absurd (ground arith)

  step-IsEmpty :
      (rows : List (Row F M)) (i : Input F M) (w : Writer Db F M)
      → Kept rows w
      → (step D say batch_size days cred_days i w).1 ≡ stopped
      → IsEmpty (step D say batch_size days cred_days i w).0
  unfolding step
  step-IsEmpty rows (produced v) w h q = absurd cc
  step-IsEmpty rows (ticked e) w h q = not_stopped e (flush D say batch_size e w) q
  step-IsEmpty rows (received j e) w h q =
      not_stopped e (take_one D say batch_size days cred_days j (take_head j w.ch) w) q
  step-IsEmpty rows (retention r e) w h q =
      not_stopped e (retention_step D say batch_size days cred_days r w) q
  step-IsEmpty rows (cancelled e) w h q =
      let d : Writer Db F M = drain_into D say batch_size w in
      let (kept, empty) = drain_into-Holds D say batch_size k other rows w h in
      finish-IsEmpty (flush D say batch_size e d)
        ((flush-IsFlushed D say batch_size k other rows e d kept).1)
        (flush_ch D say batch_size k other e d ∙ empty) q

  continue_IsEmpty :
      (w' : Writer Db F M) (e : Ending) (rest : Writer Db F M × Ending)
      → (e ≡ stopped → IsEmpty w')
      → (rest.1 ≡ stopped → IsEmpty rest.0)
      → (elim e as (λ x. Writer Db F M × Ending) [
        | running ↦ rest
        | stopped ↦ (w', stopped)
        | failed err ↦ (w', failed err)
      ]).1
        ≡ stopped
      → IsEmpty
          (elim e as (λ x. Writer Db F M × Ending) [
            | running ↦ rest
            | stopped ↦ (w', stopped)
            | failed err ↦ (w', failed err)
          ]).0
  continue_IsEmpty w' running rest h l q = l q
  continue_IsEmpty w' stopped rest h l q = h refl
  continue_IsEmpty w' (failed err) rest h l q = absurd cc

  run-IsEmpty :
      (rows : List (Row F M)) (is : List (Input F M)) (w : Writer Db F M)
      → Kept rows w
      → (run D say batch_size days cred_days is w).1 ≡ stopped
      → IsEmpty (run D say batch_size days cred_days is w).0
  unfolding run
  run-IsEmpty rows [] w h q = absurd cc
  run-IsEmpty rows (i ∷ is) w h q =
      let (w', e) = step D say batch_size days cred_days i w in
      continue_IsEmpty w' e (run D say batch_size days cred_days is w') (step-IsEmpty rows i w h)
        (run-IsEmpty (rows ++ value_rows (arrived i w)) is w' (step-Kept rows i w h)) q

  start-Kept :
      (db : Db) (ch : Channels F M)
      → staged db ≡ none
      → Kept (rows_for k (committed db) ++ value_rows (pending k ch)) (new_writer db ch)
  start-Kept db ch h = record { closed = h; counted = refl; held = unfold rows_of rows_for in refl }

  -- Of every kind but that of the agent's own events, on a database with no open transaction: however
  -- Run goes, and also where it fails, the rows that are committed, those of the pending items and those
  -- of the events that wait in the channel are together, in this order, the rows that there were, those
  -- of the events that waited, and those of the events that producers have sent since.
  pub run_keeps :
      (is : List (Input F M)) (db : Db) (ch : Channels F M)
      → staged db ≡ none
      → content D say batch_size k other
          (run D say batch_size days cred_days is (new_writer db ch)).0
        ≡ (rows_for k (committed db) ++ value_rows (pending k ch))
          ++ value_rows (arrivals is (new_writer db ch))
  run_keeps is db ch h =
      (run-Kept (rows_for k (committed db) ++ value_rows (pending k ch)) is (new_writer db ch)
        (start-Kept db ch h)).held

  -- Of every kind but that of the agent's own events, on a database with no open transaction: where Run
  -- returns without an error, exactly the events that waited in the channel and those that producers
  -- have sent since are committed behind the rows that there were, in their order.
  pub run_lossless :
      (is : List (Input F M)) (db : Db) (ch : Channels F M)
      → staged db ≡ none
      → (run D say batch_size days cred_days is (new_writer db ch)).1 ≡ stopped
      → rows_for k (committed (run D say batch_size days cred_days is (new_writer db ch)).0.db)
        ≡ (rows_for k (committed db) ++ value_rows (pending k ch))
          ++ value_rows (arrivals is (new_writer db ch))
  unfolding rows_of rows_for
  run_lossless is db ch h q =
      let start : List (Row F M) = rows_for k (committed db) ++ value_rows (pending k ch) in
      let final : Writer Db F M = (run D say batch_size days cred_days is (new_writer db ch)).0 in
      let (none_pending, none_waiting) =
        run-IsEmpty start is (new_writer db ch) (start-Kept db ch h) q in
      sym (append-nil (rows_for k (committed final.db)))
      ∙ sym (
          ap
            (λ (its : List (EventItem F M)).
              rows_for k (committed final.db)
              ++ (rows_for k (rows_of its) ++ value_rows (pending k final.ch)))
            none_pending
          ∙ ap (λ (vs : List (Event F M)). rows_for k (committed final.db) ++ value_rows vs)
              none_waiting)
      ∙ run_keeps is db ch h
