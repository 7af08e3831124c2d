-- ===== src/Store/Kinds.antt =====
-- The rows of one kind of event, among those of all.
use mathlib.Core.List.{append-nil, map-append}
use vps_safe_dashboard.Prelude.{
  ◌≡◌, refl, sym, ap, Bool, true, false, Bool-cases, inl, inr, ◌&&◌, ◌||◌, not, List, [], ◌∷◌, ◌++◌,
  map, Option, none, some, Bytes, list_beq, nat_eq, if◌then◌else◌, all, ltb, length, arith,
}
use vps_safe_dashboard.Event.{Chan, try_send}
use vps_safe_dashboard.Event.Channels.{Kind, Event, Channels, Delivery}
use vps_safe_dashboard.Event.Channels.Fifo.{same_kind, pending, delivered}
use vps_safe_dashboard.Store.Items.{Arg, EventItem, Statement, args_of, insert_stmts}
use vps_safe_dashboard.Store.Database.{Row}
use vps_safe_dashboard.Store.Batch.Atomic.{row_with, rows_of, rows_of-append}
use vps_safe_dashboard.Store.Writer.{item}
use vps_safe_dashboard.Store.Writer.Loop.{take_head, send}

abbrev kinds : List Kind
kinds = Kind.resource ∷ Kind.conn ∷ Kind.ssh ∷ Kind.fw ∷ Kind.f2b ∷ Kind.system ∷ Kind.cred ∷ []

every_kind : (p : Kind → Bool) (k : Kind) → all p kinds ≡ true → p k ≡ true
every_kind p Kind.resource h = ground arith
every_kind p _ h = ground arith

pub same_kind_sound : (k j : Kind) → same_kind k j ≡ true → k ≡ j
same_kind_sound Kind.resource Kind.resource h = refl
same_kind_sound Kind.conn Kind.conn h = refl
same_kind_sound Kind.ssh Kind.ssh h = refl
same_kind_sound Kind.fw Kind.fw h = refl
same_kind_sound Kind.f2b Kind.f2b h = refl
same_kind_sound Kind.system Kind.system h = refl
same_kind_sound Kind.cred Kind.cred h = refl
same_kind_sound _ _ h = cc

abbrev table_of : Kind → Bytes
table_of k = (insert_stmts k).table

-- The statement writes into the table of kind `k`.
abbrev pub is_into : Kind → Statement → Bool
is_into k s = list_beq nat_eq s.table (table_of k)

tables_differ :
    all (λ k. all (λ j. same_kind k j || not (is_into k (insert_stmts j))) kinds) kinds ≡ true
unfolding insert_stmts
tables_differ = refl

other_table : (k j : Kind) → same_kind k j ≡ false → is_into k (insert_stmts j) ≡ false
other_table k j h =
    let row : all (λ j. same_kind k j || not (is_into k (insert_stmts j))) kinds ≡ true =
      every_kind (λ k. all (λ j. same_kind k j || not (is_into k (insert_stmts j))) kinds) k
        tables_differ in
    let cell : same_kind k j || not (is_into k (insert_stmts j)) ≡ true =
      every_kind (λ j. same_kind k j || not (is_into k (insert_stmts j))) j row in
    ground arith

module _ {F M : Type 0} where
  unfoldable pub rows_for : Kind → List (Row F M) → List (Row F M)
  rows_for k [] = []
  rows_for k ((s, args) ∷ rows) =
      let rest = rows_for k rows in if is_into k s then (s, args) ∷ rest else rest

  pub rows_for-append :
      (k : Kind) (xs ys : List (Row F M)) → rows_for k (xs ++ ys) ≡ rows_for k xs ++ rows_for k ys
  unfolding rows_for
  rows_for-append k [] ys = refl
  rows_for-append k ((s, args) ∷ xs) ys = ground (arith, rows_for-append k xs ys)

  -- An item of another kind has no row of kind `k`.
  pub rows_for_other :
      (k j : Kind) (o : Option (List (Arg F M)))
      → same_kind k j ≡ false
      → rows_for k (row_with j o) ≡ []
  unfolding rows_for
  rows_for_other k j none h = refl
  rows_for_other k j (some args) h = rw (other_table k j h)

  -- Values as items of kind `k`.
  abbrev pub items_of : Kind → List (Event F M) → List (EventItem F M)
  items_of k vs = map (λ v. item k v) vs

  -- What `select` takes out of the channel of kind `j` leaves the other channels as they are.
  abbrev pub taken :
      Kind → Kind → Channels F M → Option (Event F M × Channels F M) → List (Event F M)
  taken k j c none = pending k c
  taken k j c (some (v, c')) = if same_kind k j then v ∷ pending k c' else pending k c'

  pub take_head_lem : (k j : Kind) (c : Channels F M) → taken k j c (take_head j c) ≡ pending k c
  unfolding take_head
  take_head_lem Kind.conn Kind.conn c = ground arith
  take_head_lem _ _ c = ground arith

  -- The value that a send puts into the channel of kind `k`: none where it is of another kind, or
  -- where the channel is full.
  abbrev into : {A : Type 0} → Bool → Chan A → Event F M → List (Event F M)
  into same ch v = if same && ltb (length ch.queue) ch.capacity then v ∷ [] else []

  abbrev pub sent : Kind → Event F M → Channels F M → List (Event F M)
  sent k (Event.resource v) c = into (same_kind k Kind.resource) c.resource (Event.resource v)
  sent k (Event.conn v) c = into (same_kind k Kind.conn) c.conn (Event.conn v)
  sent k (Event.ssh v) c = into (same_kind k Kind.ssh) c.ssh (Event.ssh v)
  sent k (Event.fw v) c = into (same_kind k Kind.fw) c.fw (Event.fw v)
  sent k (Event.f2b v) c = into (same_kind k Kind.f2b) c.f2b (Event.f2b v)
  sent k (Event.system v) c = into (same_kind k Kind.system) c.system (Event.system v)
  sent k (Event.cred v) c = into (same_kind k Kind.cred) c.cred (Event.cred v)
  sent k Event.other c = []

  map_send :
      {A : Type 0} (wrap : A → Event F M) (ch : Chan A) (v : A)
      → map wrap (try_send ch v).0.queue ≡ map wrap ch.queue ++ into true ch (wrap v)
  unfolding try_send
  map_send wrap ch v =
      ground (arith, map-append wrap ch.queue (v ∷ []), append-nil (map wrap ch.queue))

  pub pending-send :
      (k : Kind) (v : Event F M) (c : Channels F M)
      → pending k (send v c) ≡ pending k c ++ sent k v c
  unfolding send
  pending-send Kind.resource (Event.resource v) c = map_send Event.resource c.resource v
  pending-send Kind.conn (Event.conn v) c = map_send Event.conn c.conn v
  pending-send Kind.ssh (Event.ssh v) c = map_send Event.ssh c.ssh v
  pending-send Kind.fw (Event.fw v) c = map_send Event.fw c.fw v
  pending-send Kind.f2b (Event.f2b v) c = map_send Event.f2b c.f2b v
  pending-send Kind.system (Event.system v) c = map_send Event.system c.system v
  pending-send Kind.cred (Event.cred v) c = map_send Event.cred c.cred v
  pending-send _ _ c = sym (append-nil _)

  delivered_same :
      (k j : Kind) (v : Event F M) (ds : List (Delivery F M))
      → same_kind k j ≡ true
      → delivered k ((j, v) ∷ ds) ≡ v ∷ delivered k ds
  delivered_same k j v ds h = ground arith

  delivered_other :
      (k j : Kind) (v : Event F M) (ds : List (Delivery F M))
      → same_kind k j ≡ false
      → delivered k ((j, v) ∷ ds) ≡ delivered k ds
  delivered_other k j v ds h = ground arith

  -- Of the rows of a delivery, those of kind `k` are the rows of the values delivered under it.
  pub rows_of-items :
      (k : Kind) (ds : List (Delivery F M))
      → rows_for k (rows_of (map (λ (d : Delivery F M). item d.0 d.1) ds))
        ≡ rows_for k (rows_of (items_of k (delivered k ds)))
  unfolding rows_of
  rows_of-items k [] = refl
  rows_of-items k ((j, v) ∷ ds) = elim (Bool-cases (same_kind k j)) [
    | inl same ↦
        rw
          (
            delivered_same k j v ds same,
            ← same_kind_sound k j same,
            rows_for-append,
            rows_for-append,
          )
          (ap (◌++◌ (rows_for k (row_with k (args_of k v)))) (rows_of-items k ds))
    | inr other ↦
        rw (delivered_other k j v ds other, rows_for-append, rows_for_other k j (args_of j v) other)
          (rows_of-items k ds)
  ]

  pub items_rows-append :
      (k : Kind) (xs ys : List (Event F M))
      → rows_for k (rows_of (items_of k (xs ++ ys)))
        ≡ rows_for k (rows_of (items_of k xs)) ++ rows_for k (rows_of (items_of k ys))
  items_rows-append k xs ys =
      rw
        (
          map-append (λ (v : Event F M). item k v) xs ys,
          rows_of-append (items_of k xs) (items_of k ys),
        )
        (rows_for-append k (rows_of (items_of k xs)) (rows_of (items_of k ys)))
