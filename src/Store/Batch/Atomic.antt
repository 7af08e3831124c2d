-- ===== src/Store/Batch/Atomic.antt =====
-- A batch is written whole or not at all.
use vps_safe_dashboard.Prelude.{
  ◌≡◌, refl, sym, ap, ◌∙◌, Bool, true, false, List, [], ◌∷◌, ◌++◌, Option, none, some,
  if◌then◌else◌,
}
use mathlib.Core.List.{append_assoc, append-nil}
use vps_safe_dashboard.Event.Channels.{Kind}
use vps_safe_dashboard.Store.Items.{Arg, EventItem, insert_stmts, args_of}
use vps_safe_dashboard.Store.Database.{Database, Row}
use vps_safe_dashboard.Store.Batch.{
  WriteError, insert_args, insert_as, insert_item, insert_items, end_batch, write_batch,
}

-- The row of an item, where it has one.
abbrev pub row_with : {F M : Type 0} → Kind → Option (List (Arg F M)) → List (Row F M)
row_with k none = []
row_with k (some args) = (insert_stmts k, args) ∷ []

abbrev pub row_at : {F M : Type 0} → Option Kind → EventItem F M → List (Row F M)
row_at none it = []
row_at (some k) it = row_with k (args_of k it.v)

-- The rows of a batch.
unfoldable pub rows_of : {F M : Type 0} → List (EventItem F M) → List (Row F M)
rows_of [] = []
rows_of (it ∷ its) = row_at it.kind it ++ rows_of its

pub rows_of-append :
    {F M : Type 0} (xs ys : List (EventItem F M)) → rows_of (xs ++ ys) ≡ rows_of xs ++ rows_of ys
unfolding rows_of
rows_of-append [] ys = refl
rows_of-append (x ∷ xs) ys =
    rw (rows_of-append xs ys) (sym (append_assoc (row_at x.kind x) (rows_of xs) (rows_of ys)))

module _ {F M : Type 0} (D : Database F M) where
  open D use {
    Db, committed, staged, begin, insert, commit, rollback, committed-begin, staged-begin,
    committed-insert, staged-insert, committed-commit, staged-commit, committed-rollback,
    staged-rollback,
  }

  -- What inserting does to the open transaction: nothing is committed, and where it succeeds, the rows
  -- are staged.
  abbrev Stages : List (Row F M) → List (Row F M) → Db → Db × Option WriteError → Type 0
  Stages rs new d r = (committed r.0 ≡ committed d) × (r.1 ≡ none → staged r.0 ≡ some (rs ++ new))

  insert_one-Stages :
      (k : Kind) (row : Row F M) (d : Db) (rs : List (Row F M)) (ok : Bool)
      → staged d ≡ some rs
      → (insert row d).1 ≡ ok
      → Stages rs (row ∷ []) d (
          if ok
          then ((insert row d).0, none)
          else ((insert row d).0, some (WriteError.insert_failed k)))
  insert_one-Stages k row d rs true h e = (committed-insert row d, λ q. staged-insert row d rs h e)
  insert_one-Stages k row d rs false h e = (committed-insert row d, λ q. absurd cc)

  insert_args-Stages :
      (k : Kind) (o : Option (List (Arg F M))) (d : Db) (rs : List (Row F M))
      → staged d ≡ some rs
      → Stages rs (row_with k o) d (insert_args D k o d)
  unfolding insert_args
  insert_args-Stages k none d rs h = (refl, λ q. absurd cc)
  insert_args-Stages k (some args) d rs h = insert_one-Stages k (insert_stmts k, args) d rs _ h refl

  pub insert_as-Stages :
      (o : Option Kind) (it : EventItem F M) (d : Db) (rs : List (Row F M))
      → staged d ≡ some rs
      → Stages rs (row_at o it) d (insert_as D o it d)
  unfolding insert_as
  insert_as-Stages none it d rs h = (refl, λ q. absurd cc)
  insert_as-Stages (some k) it d rs h = insert_args-Stages k (args_of k it.v) d rs h

  after_item :
      (its : List (EventItem F M)) (it : EventItem F M) (d : Db) (rs : List (Row F M))
      (o : Option WriteError)
      → (insert_item D it d).1 ≡ o
      → Stages rs (row_at it.kind it) d (insert_item D it d)
      → ((rs' : List (Row F M))
          → staged (insert_item D it d).0 ≡ some rs'
          → Stages rs'
              (rows_of its)
              (insert_item D it d).0
              (insert_items D its (insert_item D it d).0))
      → Stages rs (rows_of (it ∷ its)) d (elim o [
        | some err ↦ ((insert_item D it d).0, some err)
        | none ↦ insert_items D its (insert_item D it d).0
      ])
  unfolding rows_of
  after_item its it d rs none e (same, stages) later =
      let rest = later (rs ++ row_at it.kind it) (stages e) in
      (rest.0 ∙ same, λ q. rest.1 q ∙ ap (λ (l : List (Row F M)). some l) (append_assoc rs _ _))
  after_item its it d rs (some err) e (same, stages) later = (same, λ q. absurd cc)

  pub insert_items-Stages :
      (its : List (EventItem F M)) (d : Db) (rs : List (Row F M))
      → staged d ≡ some rs
      → Stages rs (rows_of its) d (insert_items D its d)
  unfolding insert_items
  insert_items-Stages [] d rs h =
      (refl, λ q. h ∙ unfold rows_of in ap (λ (l : List (Row F M)). some l) (sym (append-nil rs)))
  insert_items-Stages (it ∷ its) d rs h =
      after_item its it d rs (insert_item D it d).1 refl (insert_as-Stages it.kind it d rs h)
        (insert_items-Stages its (insert_item D it d).0)

  -- A batch that was written is in the database whole, one that failed not at all; no transaction is
  -- left open.
  abbrev pub IsAtomic : List (Row F M) → Db → Db × Option WriteError → Type 0
  IsAtomic rows d r =
      (committed r.0 ≡ elim r.1 [ none ↦ committed d ++ rows | some e ↦ committed d ])
      × (staged r.0 ≡ none)

  commit-IsAtomic :
      (d d0 : Db) (rows : List (Row F M)) (ok : Bool)
      → committed d ≡ committed d0
      → staged d ≡ some rows
      → (commit d).1 ≡ ok
      → IsAtomic rows d0 (
          if ok
          then ((commit d).0, none)
          else (rollback (commit d).0, some WriteError.commit_failed))
  commit-IsAtomic d d0 rows true c h e = (committed-commit d rows h ∙ rw (e, c), staged-commit d e)
  commit-IsAtomic d d0 rows false c h e = (
    committed-rollback (commit d).0 ∙ committed-commit d rows h ∙ rw (e, c),
    staged-rollback (commit d).0,
  )

  end_batch-IsAtomic :
      (r : Db × Option WriteError) (d0 : Db) (rows : List (Row F M))
      → committed r.0 ≡ committed d0
      → (r.1 ≡ none → staged r.0 ≡ some rows)
      → IsAtomic rows d0 (end_batch D r)
  unfolding end_batch
  end_batch-IsAtomic (d, none) d0 rows c h = commit-IsAtomic d d0 rows (commit d).1 c (h refl) refl
  end_batch-IsAtomic (d, some e) d0 rows c h = (committed-rollback d ∙ c, staged-rollback d)

  begun-IsAtomic :
      (its : List (EventItem F M)) (d : Db) (ok : Bool)
      → staged d ≡ none
      → (begin d).1 ≡ ok
      → IsAtomic (rows_of its) d (
          if ok
          then end_batch D (insert_items D its (begin d).0)
          else ((begin d).0, some WriteError.begin_failed))
  begun-IsAtomic its d true h e =
      let (same, stages) = insert_items-Stages its (begin d).0 [] (staged-begin d h ∙ rw e) in
      end_batch-IsAtomic (insert_items D its (begin d).0) d (rows_of its) (same ∙ committed-begin d)
        stages
  begun-IsAtomic its d false h e = (committed-begin d, staged-begin d h ∙ rw e)

  -- Where no transaction is open: after a batch, if there was no error, the database has committed the
  -- rows of all its items behind what it had, in their order, and with an error only what it had; and
  -- no transaction is open.
  pub write_batch-IsAtomic :
      (its : List (EventItem F M)) (d : Db)
      → staged d ≡ none
      → IsAtomic (rows_of its) d (write_batch D its d)
  unfolding write_batch
  write_batch-IsAtomic [] d h = (unfold rows_of in sym (append-nil (committed d)), h)
  write_batch-IsAtomic (it ∷ its) d h = begun-IsAtomic (it ∷ its) d (begin d).1 h refl
