-- ===== src/Store/Writer/Loop/Completes.antt =====
-- Where the database does what it is asked, Run completes: it returns without an error once the context
-- has ended, with all that has arrived in the database.
use vps_safe_dashboard.Prelude.{ℕ, ◌≡◌, refl, List, [], ◌∷◌, ◌++◌, Option, none, some}
use vps_safe_dashboard.Event.Channels.{Kind, Event, Channels}
use vps_safe_dashboard.Event.Channels.Fifo.{pending}
use vps_safe_dashboard.Store.Items.{args_of}
use vps_safe_dashboard.Store.Database.{Database}
use vps_safe_dashboard.Store.Kinds.{rows_for}
use vps_safe_dashboard.Store.Batch.{WriteError, write_batch}
use vps_safe_dashboard.Store.Batch.Atomic.{write_batch-IsAtomic}
use vps_safe_dashboard.Store.Batch.Works.{IsWorking, write_batch-works}
use vps_safe_dashboard.Store.Writer.{
  Message, Env, Writer, item, flush, flush_full, drain_into, new_writer,
}
use vps_safe_dashboard.Store.Writer.Kept.{IsOther}
use vps_safe_dashboard.Store.Writer.Retention.{Round, retention_step}
use vps_safe_dashboard.Store.Writer.CleanedKept.{retention_step-Kept}
use vps_safe_dashboard.Store.Writer.Sound.{
  IsOwn, IsSound, IsFine, with_ch, with_db, flush-IsFine, flush_full-IsFine, enqueue_item-IsSound,
  drain_into-IsSound, yield-IsSound,
}
use vps_safe_dashboard.Store.Writer.Loop.{
  Input, produced, ticked, received, retention, cancelled, Ending, running, stopped, failed,
  take_head, send, handle, take_one, after_branch, finish, step, run,
}
use vps_safe_dashboard.Store.Writer.Loop.Lossless.{value_rows, arrivals, run_lossless}

module _ {F M : Type 0} where
  abbrev Headed : Kind → Option (Event F M × Channels F M) → Type 0
  Headed j none = Unit
  Headed j (some (v, ch)) = IsOwn (j, v)

  head_of-Headed :
      {A : Type 0} (j : Kind) (wrap : A → Event F M) (put : List A → Channels F M) (vs : List A)
      → ((v : A) → IsOwn (j, wrap v))
      → Headed j (elim vs as (λ x. Option (Event F M × Channels F M)) [
        | [] ↦ none
        | v ∷ vs ↦ some (wrap v, put vs)
      ])
  head_of-Headed j wrap put [] h = tt
  head_of-Headed j wrap put (v ∷ vs) h = h v

  take_head-Headed : (j : Kind) (c : Channels F M) → Headed j (take_head j c)
  unfolding take_head args_of
  take_head-Headed Kind.resource c = head_of-Headed Kind.resource _ _ c.resource.queue (λ v. tt)
  take_head-Headed Kind.conn c = head_of-Headed Kind.conn _ _ c.conn.queue (λ v. tt)
  take_head-Headed Kind.ssh c = head_of-Headed Kind.ssh _ _ c.ssh.queue (λ v. tt)
  take_head-Headed Kind.fw c = head_of-Headed Kind.fw _ _ c.fw.queue (λ v. tt)
  take_head-Headed Kind.f2b c = head_of-Headed Kind.f2b _ _ c.f2b.queue (λ v. tt)
  take_head-Headed Kind.system c = head_of-Headed Kind.system _ _ c.system.queue (λ v. tt)
  take_head-Headed Kind.cred c = head_of-Headed Kind.cred _ _ c.cred.queue (λ v. tt)

module _ {F M : Type 0} (D : Database F M) (works : IsWorking D) (say : Message → M)
    (batch_size days cred_days : ℕ) where
  open D use {Db, committed, staged}

  abbrev Sound : Writer Db F M → Type 0
  Sound w = IsSound D works say batch_size w

  abbrev Fine : Writer Db F M × Option WriteError → Type 0
  Fine r = IsFine D works say batch_size r

  handle-Fine :
      (j : Kind) (v : Event F M) (w : Writer Db F M)
      → IsOwn (j, v)
      → Sound w
      → Fine (handle D say batch_size days cred_days j v w)
  unfolding handle
  handle-Fine Kind.system v w own h = (
    with_db D works say batch_size w (write_batch D (item Kind.system v ∷ []) w.db).0
        ((write_batch-IsAtomic D (item Kind.system v ∷ []) w.db h.closed).1) h,
    write_batch-works D works (item Kind.system v ∷ []) w.db (own, tt) h.closed,
  )
  handle-Fine j v w own h = (enqueue_item-IsSound D works say batch_size j v w own h, refl)

  take_one-Fine :
      (j : Kind) (o : Option (Event F M × Channels F M)) (w : Writer Db F M)
      → Headed j o
      → Sound w
      → Fine (take_one D say batch_size days cred_days j o w)
  unfolding take_one
  take_one-Fine j none w own h = (h, refl)
  take_one-Fine j (some (v, ch)) w own h =
      handle-Fine j v (record w { ch = ch }) own (with_ch D works say batch_size w ch h)

  retention_step-Fine :
      (r : Round) (w : Writer Db F M)
      → Sound w
      → Fine (retention_step D say batch_size days cred_days r w)
  retention_step-Fine r w h =
      let sound : Sound (retention_step D say batch_size days cred_days r w).0 =
        retention_step-Kept D say batch_size days cred_days Sound (λ w h. h.closed)
          (λ w db c s h. with_db D works say batch_size w db s h)
          (λ now l m w h. with_ch D works say batch_size w _ h)
          (yield-IsSound D works say batch_size) r w h in
      (sound, unfold retention_step in sound.clear)

  -- A step that does not fail.
  abbrev NotFailed : Ending → Type 0
  NotFailed running = Unit
  NotFailed stopped = Unit
  NotFailed (failed err) = ⊥

  abbrev Goes : Writer Db F M × Ending → Type 0
  Goes r = Sound r.0 × NotFailed r.1

  flushed_Goes :
      (r : Writer Db F M × Option WriteError)
      → Fine r
      → Goes (elim r.1 as (λ x. Writer Db F M × Ending) [
        | none ↦ (r.0, running)
        | some err ↦ (r.0, failed err)
      ])
  flushed_Goes (w, none) h = (h.0, tt)
  flushed_Goes (w, some err) h = absurd cc

  after_branch-Goes :
      (e : Env) (r : Writer Db F M × Option WriteError)
      → Fine r
      → Goes (after_branch D say batch_size days cred_days e r)
  unfolding after_branch
  after_branch-Goes e (w, none) h =
      flushed_Goes (flush_full D say batch_size e w)
        (flush_full-IsFine D works say batch_size e w h.0)
  after_branch-Goes e (w, some err) h = absurd cc

  finish-stopped :
      (r : Writer Db F M × Option WriteError)
      → Fine r
      → Sound (finish D say batch_size days cred_days r).0
        × ((finish D say batch_size days cred_days r).1 ≡ stopped)
  unfolding finish
  finish-stopped (w, none) h = (h.0, refl)
  finish-stopped (w, some err) h = absurd cc

  cancelled-stopped :
      (e : Env) (w : Writer Db F M)
      → Sound w
      → Sound (step D say batch_size days cred_days (cancelled e) w).0
        × ((step D say batch_size days cred_days (cancelled e) w).1 ≡ stopped)
  unfolding step
  cancelled-stopped e w h =
      finish-stopped (flush D say batch_size e (drain_into D say batch_size w)) (
        flush-IsFine D works say batch_size e (drain_into D say batch_size w)
          (drain_into-IsSound D works say batch_size w h))

  stopped-NotFailed : (e : Ending) → e ≡ stopped → NotFailed e
  stopped-NotFailed running q = tt
  stopped-NotFailed stopped q = tt
  stopped-NotFailed (failed err) q = absurd cc

  step-Goes :
      (i : Input F M) (w : Writer Db F M)
      → Sound w
      → Goes (step D say batch_size days cred_days i w)
  step-Goes (cancelled e) w h =
      let (sound, q) = cancelled-stopped e w h in (sound, stopped-NotFailed _ q)
  step-Goes (produced v) w h = unfold step in (with_ch D works say batch_size w (send v w.ch) h, tt)
  step-Goes (ticked e) w h =
      unfold step in
      after_branch-Goes e (flush D say batch_size e w) (flush-IsFine D works say batch_size e w h)
  step-Goes (received j e) w h =
      unfold step in
      after_branch-Goes e (take_one D say batch_size days cred_days j (take_head j w.ch) w)
        (take_one-Fine j (take_head j w.ch) w (take_head-Headed j w.ch) h)
  step-Goes (retention r e) w h =
      unfold step in
      after_branch-Goes e (retention_step D say batch_size days cred_days r w)
        (retention_step-Fine r w h)

  continue_stopped :
      (w' : Writer Db F M) (e : Ending) (rest : Writer Db F M × Ending)
      → NotFailed e
      → rest.1 ≡ stopped
      → (elim e as (λ x. Writer Db F M × Ending) [
        | running ↦ rest
        | stopped ↦ (w', stopped)
        | failed err ↦ (w', failed err)
      ]).1
        ≡ stopped
  continue_stopped w' running rest h q = q
  continue_stopped w' stopped rest h q = refl
  continue_stopped w' (failed err) rest h q = absurd h

  last_stopped :
      (w' : Writer Db F M) (e : Ending) (rest : Writer Db F M × Ending)
      → e ≡ stopped
      → (elim e as (λ x. Writer Db F M × Ending) [
        | running ↦ rest
        | stopped ↦ (w', stopped)
        | failed err ↦ (w', failed err)
      ]).1
        ≡ stopped
  last_stopped w' running rest q = absurd cc
  last_stopped w' stopped rest q = refl
  last_stopped w' (failed err) rest q = absurd cc

  run-stopped :
      (is : List (Input F M)) (e : Env) (w : Writer Db F M)
      → Sound w
      → (run D say batch_size days cred_days (is ++ cancelled e ∷ []) w).1 ≡ stopped
  unfolding run
  run-stopped [] e w h =
      let r : Writer Db F M × Ending = step D say batch_size days cred_days (cancelled e) w in
      last_stopped r.0 r.1 (r.0, running) ((cancelled-stopped e w h).1)
  run-stopped (i ∷ is) e w h =
      let r : Writer Db F M × Ending = step D say batch_size days cred_days i w in
      let (sound, goes) = step-Goes i w h in
      continue_stopped r.0 r.1 (run D say batch_size days cred_days (is ++ cancelled e ∷ []) r.0)
        goes (run-stopped is e r.0 sound)

  -- On a database with no open transaction, where BEGIN, INSERT and COMMIT succeed: whatever has come
  -- before, with rounds of retention that may fail, once the context has ended Run returns without an
  -- error, and of every kind but that of the agent's own events, exactly the events that waited in the
  -- channel and those that producers have sent since are committed behind the rows that there were.
  pub run_completes :
      (k : Kind) (other : IsOther k) (is : List (Input F M)) (e : Env) (db : Db) (ch : Channels F M)
      → staged db ≡ none
      → ((run D say batch_size days cred_days (is ++ cancelled e ∷ []) (new_writer db ch)).1
          ≡ stopped)
        × (rows_for k (
              committed
                (run D say batch_size days cred_days
                  (is ++ cancelled e ∷ [])
                  (new_writer db ch)).0.db)
            ≡ (rows_for k (committed db)
                ++ value_rows D say batch_size days cred_days k other (pending k ch))
              ++ value_rows D say batch_size days cred_days k other (
                  arrivals D say batch_size days cred_days k other
                    (is ++ cancelled e ∷ [])
                    (new_writer db ch)))
  run_completes k other is e db ch s =
      let ends : (run D say batch_size days cred_days (is ++ cancelled e ∷ []) (new_writer db ch)).1
          ≡ stopped =
        run-stopped is e (new_writer db ch) (record { closed = s; fits = tt; clear = refl }) in
      (
        ends,
        run_lossless D say batch_size days cred_days k other (is ++ cancelled e ∷ []) db ch s ends,
      )
