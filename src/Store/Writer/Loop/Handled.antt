-- ===== src/Store/Writer/Loop/Handled.antt =====
-- What the branches of the select keep.
use mathlib.Core.List.{append_assoc, append-nil}
use vps_safe_dashboard.Prelude.{
  ℕ, ◌≡◌, sym, ap, ◌∙◌, false, Bool-cases, inl, inr, List, [], ◌∷◌, ◌++◌, Option, none, some,
  length-append, arith,
}
use vps_safe_dashboard.Event.Channels.{Kind, Event, Channels}
use vps_safe_dashboard.Event.Channels.Fifo.{same_kind, pending}
use vps_safe_dashboard.Store.Items.{enqueue, args_of}
use vps_safe_dashboard.Store.Database.{Database, Row}
use vps_safe_dashboard.Store.Batch.{WriteError, write_batch}
use vps_safe_dashboard.Store.Batch.Atomic.{
  row_with, rows_of, rows_of-append, IsAtomic, write_batch-IsAtomic,
}
use vps_safe_dashboard.Store.Kinds.{
  rows_for, rows_for-append, rows_for_other, items_of, items_rows-append, same_kind_sound, taken,
}
use vps_safe_dashboard.Store.Writer.{Message, Env, Writer, item, flush_full, enqueue_item}
use vps_safe_dashboard.Store.Writer.Kept.{IsOther, Holds, flush_full-Holds, waiting_rows}
use vps_safe_dashboard.Store.Writer.Loop.{Ending, running, failed, handle, take_one, after_branch}

module _ {F M : Type 0} (D : Database F M) (say : Message → M) (batch_size days cred_days : ℕ)
    (k : Kind) (other : IsOther k) where
  open D use {Db, committed, staged}

  abbrev Kept : List (Row F M) → Writer Db F M → Type 0
  Kept rows w = Holds D say batch_size k other rows w

  abbrev one_row : Kind → Event F M → List (Row F M)
  one_row j v = rows_for k (rows_of (item j v ∷ []))

  one_row_other : (j : Kind) (v : Event F M) → same_kind k j ≡ false → one_row j v ≡ []
  unfolding rows_of
  one_row_other j v h =
      rw (append-nil (row_with j (args_of j v))) (rows_for_other k j (args_of j v) h)

  enqueue_item-Kept :
      (rows : List (Row F M)) (j : Kind) (v : Event F M) (w : Writer Db F M) (ch : Channels F M)
      → one_row j v ++ waiting_rows D say batch_size k other ch
        ≡ waiting_rows D say batch_size k other w.ch
      → Kept rows w
      → Kept rows (enqueue_item D say batch_size j v (record w { ch = ch }))
  unfolding enqueue_item enqueue
  enqueue_item-Kept rows j v w ch moved h = record {
    closed = h.closed;
    counted = omega (arith, h.counted, length-append w.pending (item j v ∷ []));
    held =
        rw
          (
            rows_of-append w.pending (item j v ∷ []),
            rows_for-append k (rows_of w.pending) (rows_of (item j v ∷ [])),
          )
          (ap (λ (l : List (Row F M)). rows_for k (committed w.db) ++ l)
              (append_assoc (rows_for k (rows_of w.pending)) _ _
                ∙ ap (λ (l : List (Row F M)). rows_for k (rows_of w.pending) ++ l) moved)
            ∙ h.held);
  }

  -- A value of another kind that is written at once.
  stored-Kept :
      (rows : List (Row F M)) (v : Event F M) (w : Writer Db F M) (ch : Channels F M)
      (r : Db × Option WriteError)
      → IsAtomic D (rows_of (item Kind.system v ∷ [])) w.db r
      → waiting_rows D say batch_size k other ch ≡ waiting_rows D say batch_size k other w.ch
      → Kept rows w
      → Kept rows (record w { db = r.0; ch = ch })
  stored-Kept rows v w ch (db, none) a same h = record {
    closed = a.1;
    counted = h.counted;
    held =
        rw (a.0, rows_for-append k (committed w.db) (rows_of (item Kind.system v ∷ [])), same)
          (rw (one_row_other Kind.system v other, append-nil (rows_for k (committed w.db)))
            (h.held));
  }
  stored-Kept rows v w ch (db, some e) a same h = record {
    closed = a.1;
    counted = h.counted;
    held = rw (a.0, same) (h.held);
  }

  -- An event of kind `j` that has left its channel.
  handle-Kept :
      (rows : List (Row F M)) (j : Kind) (v : Event F M) (w : Writer Db F M) (ch : Channels F M)
      → one_row j v ++ waiting_rows D say batch_size k other ch
        ≡ waiting_rows D say batch_size k other w.ch
      → Kept rows w
      → Kept rows (handle D say batch_size days cred_days j v (record w { ch = ch })).0
  unfolding handle
  handle-Kept rows Kind.system v w ch moved h =
      stored-Kept rows v w ch (write_batch D (item Kind.system v ∷ []) w.db)
        (write_batch-IsAtomic D (item Kind.system v ∷ []) w.db h.closed)
        (rw (one_row_other Kind.system v other) at moved) h
  handle-Kept rows j v w ch moved h = enqueue_item-Kept rows j v w ch moved h

  taken_row :
      (j : Kind) (v : Event F M) (w : Writer Db F M) (ch : Channels F M)
      → taken k j w.ch (some (v, ch)) ≡ pending k w.ch
      → one_row j v ++ waiting_rows D say batch_size k other ch
        ≡ waiting_rows D say batch_size k other w.ch
  taken_row j v w ch e = elim (Bool-cases (same_kind k j)) [
    | inl same ↦ rw (← same_kind_sound k j same) (
        sym (items_rows-append k (v ∷ []) (pending k ch))
        ∙ ap (λ (vs : List (Event F M)). rows_for k (rows_of (items_of k vs))) (rw same at e))
    | inr differs ↦
        rw (one_row_other j v differs)
          (ap (λ (vs : List (Event F M)). rows_for k (rows_of (items_of k vs))) (rw differs at e))
  ]

  pub take_one-Kept :
      (rows : List (Row F M)) (j : Kind) (w : Writer Db F M) (o : Option (Event F M × Channels F M))
      → taken k j w.ch o ≡ pending k w.ch
      → Kept rows w
      → Kept rows (take_one D say batch_size days cred_days j o w).0
  unfolding take_one
  take_one-Kept rows j w none e h = h
  take_one-Kept rows j w (some (v, ch)) e h = handle-Kept rows j v w ch (taken_row j v w ch e) h

  pub after_branch-Kept :
      (rows : List (Row F M)) (e : Env) (r : Writer Db F M × Option WriteError)
      → Kept rows r.0
      → Kept rows (after_branch D say batch_size days cred_days e r).0
  unfolding after_branch
  after_branch-Kept rows e (w, some err) h = h
  after_branch-Kept rows e (w, none) h =
      let flushed : Kept rows (flush_full D say batch_size e w).0 =
        flush_full-Holds D say batch_size k other rows e w h in
      ending (flush_full D say batch_size e w) flushed
    where
      ending :
          (r : Writer Db F M × Option WriteError)
          → Kept rows r.0
          → Kept rows
              (elim r.1 as (λ x. Writer Db F M × Ending) [
                | none ↦ (r.0, running)
                | some err ↦ (r.0, failed err)
              ]).0
      ending (w, none) h = h
      ending (w, some err) h = h
