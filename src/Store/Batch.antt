-- ===== src/Store/Batch.antt =====
-- internal/store/store_batch.go: writeBatch, one transaction for a batch.
pub mod Atomic
pub mod Works
use vps_safe_dashboard.Prelude.{Bool, true, false, List, [], ◌∷◌, Option, none, some, if◌then◌else◌}
use vps_safe_dashboard.Event.Channels.{Kind}
use vps_safe_dashboard.Store.Items.{Arg, EventItem, insert_stmts, args_of}
use vps_safe_dashboard.Store.Database.{Database}

pub data WriteError : Type 0 where
  begin_failed : WriteError
  unknown_kind : WriteError
  mismatch : Kind → WriteError
  insert_failed : Kind → WriteError
  commit_failed : WriteError

module _ {F M : Type 0} (D : Database F M) where
  open D use {Db, begin, insert, commit, rollback}

  -- The arguments of an item of a known kind, if its value has them.
  unfoldable pub insert_args : Kind → Option (List (Arg F M)) → Db → Db × Option WriteError
  insert_args k none d = (d, some (mismatch k))
  insert_args k (some args) d =
      let (d', ok) = insert (insert_stmts k, args) d in
      if ok then (d', none) else (d', some (insert_failed k))

  unfoldable pub insert_as : Option Kind → EventItem F M → Db → Db × Option WriteError
  insert_as none it d = (d, some unknown_kind)
  insert_as (some k) it d = insert_args k (args_of k it.v) d

  abbrev pub insert_item : EventItem F M → Db → Db × Option WriteError
  insert_item it d = insert_as it.kind it d

  -- The loop of a batch: it stops at the first error.
  unfoldable pub insert_items : List (EventItem F M) → Db → Db × Option WriteError
  insert_items [] d = (d, none)
  insert_items (it ∷ its) d =
      let (d', e) = insert_item it d in
      let rest = insert_items its d' in elim e [ some err ↦ (d', some err) | none ↦ rest ]

  -- COMMIT; where it fails, and after an error of the loop, the deferred function rolls back.
  unfoldable pub end_batch : Db × Option WriteError → Db × Option WriteError
  end_batch (d, some e) = (rollback d, some e)
  end_batch (d, none) =
      let (d', ok) = commit d in if ok then (d', none) else (rollback d', some commit_failed)

  unfoldable pub write_batch : List (EventItem F M) → Db → Db × Option WriteError
  write_batch [] d = (d, none)
  write_batch (it ∷ its) d =
      let (d', ok) = begin d in
      if ok then end_batch (insert_items (it ∷ its) d') else (d', some begin_failed)
