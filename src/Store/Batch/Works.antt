-- ===== src/Store/Batch/Works.antt =====
-- A batch of items that have their arguments, on a database that does what it is asked.
use vps_safe_dashboard.Prelude.{◌≡◌, refl, ◌∙◌, true, List, [], ◌∷◌, ◌++◌, Option, none, some, All}
use vps_safe_dashboard.Event.Channels.{Kind}
use vps_safe_dashboard.Store.Items.{Arg, EventItem, insert_stmts, args_of}
use vps_safe_dashboard.Store.Database.{Database, Row}
use vps_safe_dashboard.Store.Batch.{
  WriteError, insert_args, insert_as, insert_item, insert_items, end_batch, write_batch,
}
use vps_safe_dashboard.Store.Batch.Atomic.{row_at, insert_as-Stages, insert_items-Stages}

-- BEGIN succeeds where no transaction is open, and INSERT and COMMIT in an open one.
pub record IsWorking {F M : Type 0} (D : Database F M) : Type 0 where
  pub begins : (d : D.Db) → D.staged d ≡ none → (D.begin d).1 ≡ true
  pub inserts :
      (r : Row F M) (d : D.Db) (rs : List (Row F M))
      → D.staged d ≡ some rs
      → (D.insert r d).1 ≡ true
  pub commits : (d : D.Db) (rs : List (Row F M)) → D.staged d ≡ some rs → (D.commit d).1 ≡ true

-- An item of a known kind, whose value has the arguments of that kind.
abbrev pub HasArgs : {F M : Type 0} → Option (List (Arg F M)) → Type 0
HasArgs none = ⊥
HasArgs (some args) = Unit

abbrev pub IsFit : {F M : Type 0} → Option Kind → EventItem F M → Type 0
IsFit none it = ⊥
IsFit (some k) it = HasArgs (args_of k it.v)

module _ {F M : Type 0} (D : Database F M) (works : IsWorking D) where
  open D use {Db, staged, begin, insert, commit, rollback, staged-begin}

  insert_args-works :
      (k : Kind) (o : Option (List (Arg F M))) (d : Db) (rs : List (Row F M))
      → HasArgs o
      → staged d ≡ some rs
      → (insert_args D k o d).1 ≡ none
  unfolding insert_args
  insert_args-works k none d rs h s = absurd h
  insert_args-works k (some args) d rs h s = rw (works.inserts (insert_stmts k, args) d rs s)

  insert_as-works :
      (o : Option Kind) (it : EventItem F M) (d : Db) (rs : List (Row F M))
      → IsFit o it
      → staged d ≡ some rs
      → (insert_as D o it d).1 ≡ none
  unfolding insert_as
  insert_as-works none it d rs h s = absurd h
  insert_as-works (some k) it d rs h s = insert_args-works k (args_of k it.v) d rs h s

  after_item-works :
      (d : Db) (o : Option WriteError) (rest : Db × Option WriteError)
      → o ≡ none
      → rest.1 ≡ none
      → (elim o as (λ x. Db × Option WriteError) [ some err ↦ (d, some err) | none ↦ rest ]).1
        ≡ none
  after_item-works d none rest e h = h
  after_item-works d (some err) rest e h = absurd cc

  insert_items-works :
      (its : List (EventItem F M)) (d : Db) (rs : List (Row F M))
      → All (λ it. IsFit it.kind it) its
      → staged d ≡ some rs
      → (insert_items D its d).1 ≡ none
  unfolding insert_items
  insert_items-works [] d rs h s = refl
  insert_items-works (it ∷ its) d rs (h, hs) s =
      let one : (insert_item D it d).1 ≡ none = insert_as-works it.kind it d rs h s in
      after_item-works (insert_item D it d).0 _ _ one (
        insert_items-works its (insert_item D it d).0 (rs ++ row_at it.kind it) hs
          ((insert_as-Stages D it.kind it d rs s).1 one))

  end_batch-works :
      (r : Db × Option WriteError) (rs : List (Row F M))
      → r.1 ≡ none
      → staged r.0 ≡ some rs
      → (end_batch D r).1 ≡ none
  unfolding end_batch
  end_batch-works (d, none) rs e s = rw (works.commits d rs s)
  end_batch-works (d, some err) rs e s = absurd cc

  -- Such a batch has no error.
  pub write_batch-works :
      (its : List (EventItem F M)) (d : Db)
      → All (λ it. IsFit it.kind it) its
      → staged d ≡ none
      → (write_batch D its d).1 ≡ none
  unfolding write_batch
  write_batch-works [] d h s = refl
  write_batch-works (it ∷ its) d h s =
      let began : (begin d).1 ≡ true = works.begins d s in
      let open_now : staged (begin d).0 ≡ some [] = staged-begin d s ∙ rw began in
      let inserted : (insert_items D (it ∷ its) (begin d).0).1 ≡ none =
        insert_items-works (it ∷ its) (begin d).0 [] h open_now in
      rw began (
        end_batch-works (insert_items D (it ∷ its) (begin d).0) _ inserted
          ((insert_items-Stages D (it ∷ its) (begin d).0 [] open_now).1 inserted))
