-- ===== src/Store/Writer/Sound.antt =====
-- On a database that does what it is asked, no write of the writer has an error.
use vps_safe_dashboard.Prelude.{
  ℕ, zero, suc, ◌≡◌, refl, Bool-cases, inl, inr, List, [], ◌∷◌, ◌++◌, Option, none, some, ◌==◌, leb,
  take, All, All-append, All-take,
}
use vps_safe_dashboard.Event.Channels.{
  Kind, Event, Channels, Delivery, first, drain_round, after_round, drain, in_flight,
}
use vps_safe_dashboard.Store.Items.{EventItem, enqueue, args_of}
use vps_safe_dashboard.Store.Database.{Database}
use vps_safe_dashboard.Store.Batch.{WriteError, write_batch}
use vps_safe_dashboard.Store.Batch.Atomic.{write_batch-IsAtomic}
use vps_safe_dashboard.Store.Batch.Works.{IsWorking, HasArgs, IsFit, write_batch-works}
use vps_safe_dashboard.Store.Writer.{
  Message, Env, Writer, item, written, after_write, flush, flush_full, enqueue_item, enqueue_all,
  drained, drain_into, keep_error, yield,
}

-- What a channel of a kind delivers has the arguments of that kind.
module _ {F M : Type 0} where
  abbrev pub IsOwn : Delivery F M → Type 0
  IsOwn d = HasArgs (args_of d.0 d.1)

  All-first :
      {A : Type 0} (wrap : A → Delivery F M) (vs : List A)
      → ((v : A) → IsOwn (wrap v))
      → All IsOwn (first wrap vs)
  All-first wrap [] h = tt
  All-first wrap (v ∷ vs) h = (h v, tt)

  All-both : (xs ys : List (Delivery F M)) → All IsOwn xs → All IsOwn ys → All IsOwn (xs ++ ys)
  All-both xs ys = All-append IsOwn xs ys

  drain_round-IsOwn : (c : Channels F M) → All IsOwn (drain_round c)
  unfolding drain_round args_of
  drain_round-IsOwn c = All-both _ _ (All-first _ c.resource.queue (λ v. tt)) (
      All-both _ _ (All-first _ c.conn.queue (λ v. tt)) (
        All-both _ _ (All-first _ c.ssh.queue (λ v. tt)) (
          All-both _ _ (All-first _ c.fw.queue (λ v. tt)) (
            All-both _ _ (All-first _ c.f2b.queue (λ v. tt)) (
              All-both _ _ (All-first _ c.cred.queue (λ v. tt))
                (All-first _ c.system.queue (λ v. tt)))))))

  abbrev Delivers : Option (Channels F M × List (Delivery F M)) → Type 0
  Delivers none = Unit
  Delivers (some (c, out)) = All IsOwn out

  drain_more :
      (c : Channels F M) (ds : List (Delivery F M))
      (later : Option (Channels F M × List (Delivery F M)))
      → All IsOwn ds
      → Delivers later
      → Delivers (elim ds as (λ x. Option (Channels F M × List (Delivery F M))) [
        | [] ↦ some (c, [])
        | d ∷ ds ↦ elim later [ none ↦ none | some (c', out) ↦ some (c', (d ∷ ds) ++ out) ]
      ])
  drain_more c [] later h l = tt
  drain_more c (d ∷ ds) none h l = tt
  drain_more c (d ∷ ds) (some (c', out)) h l = All-append IsOwn (d ∷ ds) out h l

  drain-IsOwn : (fuel : ℕ) (c : Channels F M) → Delivers (drain fuel c)
  unfolding drain
  drain-IsOwn zero c = tt
  drain-IsOwn (suc fuel) c =
      drain_more (after_round c) (drain_round c) (drain fuel (after_round c)) (drain_round-IsOwn c)
        (drain-IsOwn fuel (after_round c))

module _ {F M : Type 0} (D : Database F M) (works : IsWorking D) (say : Message → M)
    (batch_size : ℕ) where
  open D use {Db, staged}

  -- No transaction is open, each pending item has its arguments, and no flush has failed.
  pub record IsSound (w : Writer Db F M) : Type 0 where
    pub closed : staged w.db ≡ none
    pub fits : All (λ it. IsFit it.kind it) w.pending
    pub clear : w.yield_err ≡ none

  abbrev pub IsFine : Writer Db F M × Option WriteError → Type 0
  IsFine r = IsSound r.0 × (r.1 ≡ none)

  pub with_ch : (w : Writer Db F M) (ch : Channels F M) → IsSound w → IsSound (record w { ch = ch })
  with_ch w ch h = record { closed = h.closed; fits = h.fits; clear = h.clear }

  pub with_db :
      (w : Writer Db F M) (db : Db) → staged db ≡ none → IsSound w → IsSound (record w { db = db })
  with_db w db s h = record { closed = s; fits = h.fits; clear = h.clear }

  after_write-IsFine :
      (e : Env) (w : Writer Db F M) (r : Db × Option WriteError)
      → staged r.0 ≡ none
      → r.1 ≡ none
      → IsSound w
      → IsFine (after_write D say batch_size e w r)
  unfolding after_write written
  after_write-IsFine e w (db, none) s q h =
      (record { closed = s; fits = tt; clear = h.clear }, refl)
  after_write-IsFine e w (db, some err) s q h = absurd cc

  pub flush-IsFine : (e : Env) (w : Writer Db F M) → IsSound w → IsFine (flush D say batch_size e w)
  unfolding flush
  flush-IsFine e w h = elim (Bool-cases (w.n_in_batch == 0)) [
    | inl empty ↦ rw empty (h, refl)
    | inr full ↦
        let its : List (EventItem F M) = take w.n_in_batch w.pending in
        rw full (
          after_write-IsFine e w (write_batch D its w.db)
            ((write_batch-IsAtomic D its w.db h.closed).1)
            (write_batch-works D works its w.db
              (All-take (λ it. IsFit it.kind it) w.n_in_batch w.pending h.fits) h.closed)
            h)
  ]

  pub flush_full-IsFine :
      (e : Env) (w : Writer Db F M) → IsSound w → IsFine (flush_full D say batch_size e w)
  unfolding flush_full
  flush_full-IsFine e w h = elim (Bool-cases (leb batch_size w.n_in_batch)) [
    | inl full ↦ rw full (flush-IsFine e w h)
    | inr room ↦ rw room (h, refl)
  ]

  pub enqueue_item-IsSound :
      (j : Kind) (v : Event F M) (w : Writer Db F M)
      → IsOwn (j, v)
      → IsSound w
      → IsSound (enqueue_item D say batch_size j v w)
  unfolding enqueue_item enqueue
  enqueue_item-IsSound j v w own h = record {
    closed = h.closed;
    fits = All-append (λ it. IsFit it.kind it) w.pending (item j v ∷ []) h.fits (own, tt);
    clear = h.clear;
  }

  enqueue_all-IsSound :
      (ds : List (Delivery F M)) (w : Writer Db F M)
      → All IsOwn ds
      → IsSound w
      → IsSound (enqueue_all D say batch_size ds w)
  unfolding enqueue_all
  enqueue_all-IsSound [] w own h = h
  enqueue_all-IsSound ((j, v) ∷ ds) w (own, owns) h =
      enqueue_all-IsSound ds (enqueue_item D say batch_size j v w) owns
        (enqueue_item-IsSound j v w own h)

  drained-IsSound :
      (o : Option (Channels F M × List (Delivery F M))) (w : Writer Db F M)
      → Delivers o
      → IsSound w
      → IsSound (drained D say batch_size o w)
  unfolding drained
  drained-IsSound none w own h = h
  drained-IsSound (some (ch, out)) w own h =
      enqueue_all-IsSound out (record w { ch = ch }) own (with_ch w ch h)

  pub drain_into-IsSound : (w : Writer Db F M) → IsSound w → IsSound (drain_into D say batch_size w)
  unfolding drain_into
  drain_into-IsSound w = drained-IsSound _ w (drain-IsOwn (suc (in_flight w.ch)) w.ch)

  keep_error-IsSound :
      (r : Writer Db F M × Option WriteError) → IsFine r → IsSound (keep_error D say batch_size r)
  unfolding keep_error
  keep_error-IsSound (w, none) h = h.0
  keep_error-IsSound (w, some err) h = absurd cc

  pub yield-IsSound :
      (e : Env) (w : Writer Db F M) → IsSound w → IsSound (yield D say batch_size e w)
  unfolding yield
  yield-IsSound e w h =
      keep_error-IsSound (flush_full D say batch_size e (drain_into D say batch_size w))
        (flush_full-IsFine e (drain_into D say batch_size w) (drain_into-IsSound w h))
