-- ===== src/Store/Writer/Loop.antt =====
-- internal/store/store.go: the select loop of Run.
pub mod Handled
pub mod Lossless
pub mod Completes
use vps_safe_dashboard.Prelude.{
  ℕ, Bool, true, false, List, [], ◌∷◌, ◌++◌, Option, none, some, ltb, length, if◌then◌else◌,
}
use vps_safe_dashboard.Event.{Chan, try_send}
use vps_safe_dashboard.Event.Channels.{Kind, Event, Channels}
use vps_safe_dashboard.Store.Items.{EventItem}
use vps_safe_dashboard.Store.Database.{Database}
use vps_safe_dashboard.Store.Batch.{WriteError, write_batch}
use vps_safe_dashboard.Store.Writer.{
  Message, Env, Writer, item, flush, flush_full, enqueue_item, drain_into,
}
use vps_safe_dashboard.Store.Writer.Retention.{Round, retention_step}

-- What happens next: a producer sends an event, or `select` takes a branch. `cancelled` is what Run does
-- behind producers.Wait(), so it stands for a Wait that has returned; that it does is not shown here.
-- A round of `retention` is one step: the source's yield takes in what producers have sent between two
-- of its batches, and here an event that comes during a round is one that comes before or after it.
-- The branch of an archive request is not modelled.
pub data Input (F M : Type 0) : Type 0 where
  produced : Event F M → Input F M
  ticked : Env → Input F M
  received : Kind → Env → Input F M
  retention : Round → Env → Input F M
  cancelled : Env → Input F M

pub data Ending : Type 0 where
  running : Ending
  stopped : Ending
  failed : WriteError → Ending

module _ {F M : Type 0} where
  -- The head of a channel and the rest, if there is a head.
  abbrev pub head_of :
      {A : Type 0}
      → (A → Event F M)
      → (Chan A → Channels F M)
      → Chan A
      → Option (Event F M × Channels F M)
  head_of wrap put ch = elim ch.queue [
    | [] ↦ none
    | v ∷ vs ↦ some (wrap v, put (record ch { queue = vs }))
  ]

  unfoldable pub take_head : Kind → Channels F M → Option (Event F M × Channels F M)
  take_head Kind.resource c = head_of Event.resource (λ ch. record c { resource = ch }) c.resource
  take_head Kind.conn c = head_of Event.conn (λ ch. record c { conn = ch }) c.conn
  take_head Kind.ssh c = head_of Event.ssh (λ ch. record c { ssh = ch }) c.ssh
  take_head Kind.fw c = head_of Event.fw (λ ch. record c { fw = ch }) c.fw
  take_head Kind.f2b c = head_of Event.f2b (λ ch. record c { f2b = ch }) c.f2b
  take_head Kind.system c = head_of Event.system (λ ch. record c { system = ch }) c.system
  take_head Kind.cred c = head_of Event.cred (λ ch. record c { cred = ch }) c.cred

  -- A send goes through where its channel has room; until then the producer waits.
  unfoldable pub send : Event F M → Channels F M → Channels F M
  send (Event.resource v) c = record c { resource = (try_send c.resource v).0 }
  send (Event.conn v) c = record c { conn = (try_send c.conn v).0 }
  send (Event.ssh v) c = record c { ssh = (try_send c.ssh v).0 }
  send (Event.fw v) c = record c { fw = (try_send c.fw v).0 }
  send (Event.f2b v) c = record c { f2b = (try_send c.f2b v).0 }
  send (Event.system v) c = record c { system = (try_send c.system v).0 }
  send (Event.cred v) c = record c { cred = (try_send c.cred v).0 }
  send Event.other c = c

module _ {F M : Type 0} (D : Database F M) (say : Message → M) (batch_size : ℕ)
    (retention_days cred_retention_days : ℕ) where
  open D use {Db}

  abbrev stored : Writer Db F M → Db × Option WriteError → Writer Db F M × Option WriteError
  stored w (db, e) = (record w { db = db }, e)

  -- A value of a channel: an event of the agent is written at once, any other waits for its batch.
  unfoldable pub handle : Kind → Event F M → Writer Db F M → Writer Db F M × Option WriteError
  handle Kind.system v w = stored w (write_batch D (item Kind.system v ∷ []) w.db)
  handle k v w = (enqueue_item D say batch_size k v w, none)

  unfoldable pub take_one :
      Kind → Option (Event F M × Channels F M) → Writer Db F M → Writer Db F M × Option WriteError
  take_one k none w = (w, none)
  take_one k (some (v, ch)) w = handle k v (record w { ch = ch })

  -- The test of the batch size behind the select, after a branch without an error.
  unfoldable pub after_branch : Env → Writer Db F M × Option WriteError → Writer Db F M × Ending
  after_branch k (w, some e) = (w, failed e)
  after_branch k (w, none) =
      let (w', e) = flush_full D say batch_size k w in
      elim e [ none ↦ (w', running) | some err ↦ (w', failed err) ]

  unfoldable pub finish : Writer Db F M × Option WriteError → Writer Db F M × Ending
  finish (w, some e) = (w, failed e)
  finish (w, none) = (w, stopped)

  unfoldable pub step : Input F M → Writer Db F M → Writer Db F M × Ending
  step (produced v) w = (record w { ch = send v w.ch }, running)
  step (ticked k) w = after_branch k (flush D say batch_size k w)
  step (received j k) w = after_branch k (take_one j (take_head j w.ch) w)
  step (retention r k) w =
      after_branch k (retention_step D say batch_size retention_days cred_retention_days r w)
  step (cancelled k) w = finish (flush D say batch_size k (drain_into D say batch_size w))

  unfoldable pub run : List (Input F M) → Writer Db F M → Writer Db F M × Ending
  run [] w = (w, running)
  run (i ∷ is) w =
      let (w', e) = step i w in
      let rest = run is w' in
      elim e [ running ↦ rest | stopped ↦ (w', stopped) | failed err ↦ (w', failed err) ]
