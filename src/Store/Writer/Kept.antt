-- ===== src/Store/Writer/Kept.antt =====
-- What the writer holds of one kind of event: the rows that are committed, those of the pending items,
-- and those of the events that wait in the channel, in this order. Flushing, draining and yielding
-- keep it.
use mathlib.Core.List.{append_assoc, append-nil}
use vps_safe_dashboard.Prelude.{
  ℕ, suc, ◌+◌, ◌≡◌, refl, sym, ap, ◌∙◌, Bool, true, false, ◌||◌, Bool-cases, inl, inr, List, [],
  ◌∷◌, ◌++◌, map, Option, none, some, ◌==◌, ==_iff, leb, length, length-append, take, take_all,
  arith,
}
use vps_safe_dashboard.Event.{Level, report_sys}
use vps_safe_dashboard.Event.Channels.{Kind, Event, Channels, Delivery, in_flight}
use vps_safe_dashboard.Event.Channels.Fifo.{same_kind, pending, delivered, drain_lem, pending_nil}
use vps_safe_dashboard.Store.Items.{EventItem, enqueue}
use vps_safe_dashboard.Store.Database.{Database, Row}
use vps_safe_dashboard.Store.Batch.{WriteError, write_batch}
use vps_safe_dashboard.Store.Batch.Atomic.{rows_of, rows_of-append, IsAtomic, write_batch-IsAtomic}
use vps_safe_dashboard.Store.Kinds.{
  rows_for, rows_for-append, items_of, rows_of-items, items_rows-append,
}
use vps_safe_dashboard.Store.Writer.{
  Message, Env, Writer, item, tell, written, after_write, flush, flush_full, enqueue_item,
  enqueue_all, drained, drain_into, keep_error, yield,
}

nothing {ℓ} : {A : Type ℓ} (xs : List A) → length xs ≡ 0 → xs ≡ []
nothing [] h = refl
nothing (x ∷ xs) h = absurd (omega arith)

abbrev pub IsOther : Kind → Type 0
IsOther k = same_kind k Kind.system ≡ false

pub pending-tell :
    {F M : Type 0} (say : Message → M) (k : Kind) (now : ℕ) (l : Level) (m : Message)
    (c : Channels F M)
    → IsOther k
    → pending k (tell say now l m c) ≡ pending k c
unfolding tell report_sys
pending-tell say Kind.system now l m c h = cc
pending-tell say _ now l m c h = refl

module _ {F M : Type 0} (D : Database F M) (say : Message → M) (batch_size : ℕ) (k : Kind)
    (other : IsOther k) where
  open D use {Db, committed, staged}

  abbrev pub waiting_rows : Channels F M → List (Row F M)
  waiting_rows c = rows_for k (rows_of (items_of k (pending k c)))

  abbrev pub content : Writer Db F M → List (Row F M)
  content w = rows_for k (committed w.db) ++ (rows_for k (rows_of w.pending) ++ waiting_rows w.ch)

  -- No transaction is open, the count of the pending items is right, and `rows` are held.
  pub record Holds (rows : List (Row F M)) (w : Writer Db F M) : Type 0 where
    pub closed : staged w.db ≡ none
    pub counted : w.n_in_batch ≡ length w.pending
    pub held : content w ≡ rows

  -- A new channel of the agent's own events is none of kind `k`.
  pub tell-Holds :
      (rows : List (Row F M)) (now : ℕ) (l : Level) (m : Message) (w : Writer Db F M)
      → Holds rows w
      → Holds rows (record w { ch = tell say now l m w.ch })
  tell-Holds rows now l m w h = record {
    closed = h.closed;
    counted = h.counted;
    held = rw (pending-tell say k now l m w.ch other) (h.held);
  }

  emptied-Holds :
      (rows : List (Row F M)) (w : Writer Db F M) (db : Db) (done : Bool)
      → staged db ≡ none
      → committed db ≡ committed w.db ++ rows_of w.pending
      → Holds rows w
      → Holds rows (record w { db = db; pending = []; n_in_batch = 0; wal_chmod_done = done })
  emptied-Holds rows w db done s c h = record {
    closed = s;
    counted = refl;
    held =
        unfold rows_of rows_for in
        rw (c, rows_for-append k (committed w.db) (rows_of w.pending))
          (append_assoc (rows_for k (committed w.db)) (rows_for k (rows_of w.pending))
              (waiting_rows w.ch)
            ∙ h.held);
  }

  -- A write that failed leaves the items pending.
  unwritten-Holds :
      (rows : List (Row F M)) (w : Writer Db F M) (db : Db)
      → staged db ≡ none
      → committed db ≡ committed w.db
      → Holds rows w
      → Holds rows (record w { db = db })
  unwritten-Holds rows w db s c h = record { closed = s; counted = h.counted; held = rw c (h.held) }

  -- What a flush promises.
  abbrev pub IsFlushed : List (Row F M) → Writer Db F M × Option WriteError → Type 0
  IsFlushed rows r = Holds rows r.0 × (r.1 ≡ none → r.0.pending ≡ [])

  written-Holds :
      (rows : List (Row F M)) (e : Env) (w : Writer Db F M) (db : Db)
      → staged db ≡ none
      → committed db ≡ committed w.db ++ rows_of w.pending
      → Holds rows w
      → Holds rows (written D say batch_size e (record w { db = db }))
  unfolding written
  written-Holds rows e w db s c h = elim (Bool-cases (w.wal_chmod_done || e.chmod_ok)) [
    | inl quiet ↦ rw quiet (emptied-Holds rows w db true s c h)
    | inr loud ↦ rw loud (
        tell-Holds rows e.now Level.warn Message.chmod_failed
          (record w { db = db; pending = []; n_in_batch = 0; wal_chmod_done = true })
          (emptied-Holds rows w db true s c h))
  ]

  after_write-IsFlushed :
      (rows : List (Row F M)) (e : Env) (w : Writer Db F M) (r : Db × Option WriteError)
      → IsAtomic D (rows_of w.pending) w.db r
      → Holds rows w
      → IsFlushed rows (after_write D say batch_size e w r)
  unfolding after_write
  after_write-IsFlushed rows e w (db, none) a h =
      (written-Holds rows e w db a.1 a.0 h, λ q. unfold written in refl)
  after_write-IsFlushed rows e w (db, some err) a h =
      (unwritten-Holds rows w db a.1 a.0 h, λ q. absurd cc)

  pub flush-IsFlushed :
      (rows : List (Row F M)) (e : Env) (w : Writer Db F M)
      → Holds rows w
      → IsFlushed rows (flush D say batch_size e w)
  unfolding flush
  flush-IsFlushed rows e w h =
      let all : take w.n_in_batch w.pending ≡ w.pending =
        take_all w.n_in_batch w.pending (omega (arith, h.counted)) in
      elim (Bool-cases (w.n_in_batch == 0)) [
        | inl empty ↦
            rw empty (
              h,
              λ q. nothing w.pending (omega (arith, h.counted, (==_iff w.n_in_batch 0).0 empty)),
            )
        | inr full ↦
            rw (full, all)
              (after_write-IsFlushed rows e w (write_batch D w.pending w.db)
                (write_batch-IsAtomic D w.pending w.db h.closed) h)
      ]

  -- A flush takes nothing out of the channel.
  after_write_ch :
      (e : Env) (w : Writer Db F M) (r : Db × Option WriteError)
      → pending k (after_write D say batch_size e w r).0.ch ≡ pending k w.ch
  unfolding after_write written
  after_write_ch e w (db, some err) = refl
  after_write_ch e w (db, none) = elim (Bool-cases (w.wal_chmod_done || e.chmod_ok)) [
    | inl quiet ↦ rw quiet
    | inr loud ↦ rw loud (pending-tell say k e.now Level.warn Message.chmod_failed w.ch other)
  ]

  pub flush_ch :
      (e : Env) (w : Writer Db F M) → pending k (flush D say batch_size e w).0.ch ≡ pending k w.ch
  unfolding flush
  flush_ch e w = elim (Bool-cases (w.n_in_batch == 0)) [
    | inl empty ↦ rw empty
    | inr full ↦ rw full (after_write_ch e w (write_batch D (take w.n_in_batch w.pending) w.db))
  ]

  pub flush_full-Holds :
      (rows : List (Row F M)) (e : Env) (w : Writer Db F M)
      → Holds rows w
      → Holds rows (flush_full D say batch_size e w).0
  unfolding flush_full
  flush_full-Holds rows e w h = elim (Bool-cases (leb batch_size w.n_in_batch)) [
    | inl full ↦ rw full ((flush-IsFlushed rows e w h).0)
    | inr room ↦ rw room h
  ]

  -- The items that are enqueued of deliveries.
  abbrev items : List (Delivery F M) → List (EventItem F M)
  items ds = map (λ (d : Delivery F M). item d.0 d.1) ds

  record IsEnqueued (ds : List (Delivery F M)) (w w' : Writer Db F M) : Type 0 where
    same_db : w'.db ≡ w.db
    same_ch : w'.ch ≡ w.ch
    behind : w'.pending ≡ w.pending ++ items ds
    more : w'.n_in_batch ≡ w.n_in_batch + length ds

  enqueue_all-IsEnqueued :
      (ds : List (Delivery F M)) (w : Writer Db F M)
      → IsEnqueued ds w (enqueue_all D say batch_size ds w)
  unfolding enqueue_all enqueue_item enqueue
  enqueue_all-IsEnqueued [] w = record {
    same_db = refl;
    same_ch = refl;
    behind = sym (append-nil w.pending);
    more = omega arith;
  }
  enqueue_all-IsEnqueued ((j, v) ∷ ds) w =
      let i : IsEnqueued ds (enqueue_item D say batch_size j v w)
          (enqueue_all D say batch_size ds (enqueue_item D say batch_size j v w)) =
        enqueue_all-IsEnqueued ds (enqueue_item D say batch_size j v w) in
      record {
        same_db = i.same_db;
        same_ch = i.same_ch;
        behind = i.behind ∙ append_assoc w.pending (item j v ∷ []) (items ds);
        more = omega (arith, i.more);
      }

  length-items : (ds : List (Delivery F M)) → length (items ds) ≡ length ds
  length-items [] = refl
  length-items (d ∷ ds) = ap (λ (n : ℕ). suc n) (length-items ds)

  joined :
      (ds : List (Delivery F M)) (ch ch' : Channels F M)
      → delivered k ds ++ pending k ch ≡ pending k ch'
      → rows_for k (rows_of (items_of k (delivered k ds))) ++ waiting_rows ch ≡ waiting_rows ch'
  joined ds ch ch' moved =
      sym (items_rows-append k (delivered k ds) (pending k ch))
      ∙ ap (λ (vs : List (Event F M)). rows_for k (rows_of (items_of k vs))) moved

  -- What is taken out of the channels and enqueued is still held.
  enqueued-Holds :
      (rows : List (Row F M)) (w w' : Writer Db F M) (ch : Channels F M) (ds : List (Delivery F M))
      → IsEnqueued ds (record w { ch = ch }) w'
      → (delivered k ds ++ pending k ch ≡ pending k w.ch)
      → Holds rows w
      → Holds rows w'
  enqueued-Holds rows w w' ch ds i moved h = record {
    closed = rw (i.same_db) (h.closed);
    counted = omega (
      arith,
      i.more,
      h.counted,
      ap (λ (l : List (EventItem F M)). length l) i.behind,
      length-append w.pending (items ds),
      length-items ds,
    );
    held =
        rw
          (
            i.same_db,
            i.same_ch,
            i.behind,
            rows_of-append w.pending (items ds),
            rows_for-append k (rows_of w.pending) (rows_of (items ds)),
            rows_of-items k ds,
          )
          (ap (λ (l : List (Row F M)). rows_for k (committed w.db) ++ l)
              (append_assoc (rows_for k (rows_of w.pending)) _ _
                ∙ ap (λ (l : List (Row F M)). rows_for k (rows_of w.pending) ++ l)
                    (joined ds ch w.ch moved))
            ∙ h.held);
  }

  -- Draining takes everything out of the channels, and keeps it.
  pub drain_into-Holds :
      (rows : List (Row F M)) (w : Writer Db F M)
      → Holds rows w
      → Holds rows (drain_into D say batch_size w)
        × (pending k (drain_into D say batch_size w).ch ≡ [])
  unfolding drain_into drained
  drain_into-Holds rows w h =
      let (c, out, p, empty, all) = drain_lem (suc (in_flight w.ch)) w.ch (omega arith) in
      let start : Writer Db F M = record w { ch = c } in
      let i : IsEnqueued out start (enqueue_all D say batch_size out start) =
        enqueue_all-IsEnqueued out start in
      let none_left : pending k c ≡ [] = pending_nil k c empty in
      rw p (
        enqueued-Holds rows w (enqueue_all D say batch_size out start) c out i
            (rw none_left (append-nil (delivered k out)) ∙ all k) h,
        ap (λ (c : Channels F M). pending k c) i.same_ch ∙ none_left,
      )

  keep_error-Holds :
      (rows : List (Row F M)) (r : Writer Db F M × Option WriteError)
      → Holds rows r.0
      → Holds rows (keep_error D say batch_size r)
  unfolding keep_error
  keep_error-Holds rows (w, none) h = h
  keep_error-Holds rows (w, some e) h = choose w.yield_err
    where
      choose :
          (o : Option WriteError)
          → Holds rows (elim o [ none ↦ record w { yield_err = some e } | some old ↦ w ])
      choose none = record { closed = h.closed; counted = h.counted; held = h.held }
      choose (some old) = h

  pub yield-Holds :
      (rows : List (Row F M)) (e : Env) (w : Writer Db F M)
      → Holds rows w
      → Holds rows (yield D say batch_size e w)
  unfolding yield
  yield-Holds rows e w h =
      keep_error-Holds rows (flush_full D say batch_size e (drain_into D say batch_size w))
        (flush_full-Holds rows e (drain_into D say batch_size w) ((drain_into-Holds rows w h).0))
