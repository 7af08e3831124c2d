-- ===== src/Event/Channels.antt =====
-- internal/event/event.go: the channels between the collectors and the store, Drain, and TSOf.
pub mod Fifo
use vps_safe_dashboard.Prelude.{
  ℕ, zero, suc, ◌+◌, Bool, true, false, List, [], ◌∷◌, ◌++◌, Option, none, some, length,
}
use vps_safe_dashboard.Event.{
  ResourceSample, ConnEvent, SshAttempt, FirewallEvent, BanEvent, CredEvent, SystemEvent, Chan,
}

-- The constants KindResource … KindCred.
pub data Kind : Type 0 where
  resource conn ssh fw f2b system cred : Kind

-- What a channel carries, as a value of type `any`. `other` is a value of any other type.
pub data Event (F M : Type 0) : Type 0 where
  resource : ResourceSample F → Event F M
  conn : ConnEvent → Event F M
  ssh : SshAttempt → Event F M
  fw : FirewallEvent → Event F M
  f2b : BanEvent → Event F M
  system : SystemEvent M → Event F M
  cred : CredEvent → Event F M
  other : Event F M

pub record Channels (F M : Type 0) : Type 0 where
  pub resource : Chan (ResourceSample F)
  pub conn : Chan ConnEvent
  pub ssh : Chan SshAttempt
  pub fw : Chan FirewallEvent
  pub f2b : Chan BanEvent
  pub cred : Chan CredEvent
  pub system : Chan (SystemEvent M)

abbrev pub make_chan : {A : Type 0} → ℕ → Chan A
make_chan buf = record { capacity = buf; queue = [] }

unfoldable pub new_channels : {F M : Type 0} → ℕ → Channels F M
new_channels buf = record {
  resource = make_chan buf;
  conn = make_chan buf;
  ssh = make_chan buf;
  fw = make_chan buf;
  f2b = make_chan buf;
  cred = make_chan buf;
  system = make_chan buf;
}

-- A call of the callback: the kind that it is given, and the value.
abbrev pub Delivery : Type 0 → Type 0 → Type 0
Delivery F M = Kind × Event F M

-- The head of a channel, delivered by `wrap`, if there is one: `case v := <-c:` or `default:`.
abbrev pub first {ℓ} : {A : Type 0} {B : Type ℓ} → (A → B) → List A → List B
first wrap [] = []
first wrap (v ∷ vs) = wrap v ∷ []

abbrev pub rest : {A : Type 0} → List A → List A
rest [] = []
rest (v ∷ vs) = vs

abbrev pub receive : {A : Type 0} → Chan A → Chan A
receive ch = record ch { queue = rest ch.queue }

module _ {F M : Type 0} where
  -- One round of the loop over the seven channels: what it delivers, and what it leaves.
  unfoldable pub drain_round : Channels F M → List (Delivery F M)
  drain_round c =
      first (λ v. (Kind.resource, Event.resource v)) c.resource.queue
      ++ (first (λ v. (Kind.conn, Event.conn v)) c.conn.queue
          ++ (first (λ v. (Kind.ssh, Event.ssh v)) c.ssh.queue
              ++ (first (λ v. (Kind.fw, Event.fw v)) c.fw.queue
                  ++ (first (λ v. (Kind.f2b, Event.f2b v)) c.f2b.queue
                      ++ (first (λ v. (Kind.cred, Event.cred v)) c.cred.queue
                          ++ first (λ v. (Kind.system, Event.system v)) c.system.queue)))))

  unfoldable pub after_round : Channels F M → Channels F M
  after_round c = record {
    resource = receive c.resource;
    conn = receive c.conn;
    ssh = receive c.ssh;
    fw = receive c.fw;
    f2b = receive c.f2b;
    cred = receive c.cred;
    system = receive c.system;
  }

  -- `none` means that the fuel ran out. The loop ends after a round that delivers nothing.
  unfoldable pub drain : ℕ → Channels F M → Option (Channels F M × List (Delivery F M))
  drain zero c = none
  drain (suc fuel) c =
      let later = drain fuel (after_round c) in
      elim (drain_round c) [
        | [] ↦ some (after_round c, [])
        | d ∷ ds ↦ elim later [ none ↦ none | some (c', out) ↦ some (c', (d ∷ ds) ++ out) ]
      ]

  -- How many events are in flight.
  unfoldable pub in_flight : Channels F M → ℕ
  in_flight c =
      length c.resource.queue
      + length c.conn.queue
      + length c.ssh.queue
      + length c.fw.queue
      + length c.f2b.queue
      + length c.cred.queue
      + length c.system.queue

  unfoldable pub ts_of : Event F M → Option ℕ
  ts_of (Event.resource e) = some e.ts
  ts_of (Event.conn e) = some e.ts
  ts_of (Event.ssh e) = some e.ts
  ts_of (Event.fw e) = some e.ts
  ts_of (Event.f2b e) = some e.ts
  ts_of (Event.system e) = some e.ts
  ts_of (Event.cred e) = some e.ts
  ts_of Event.other = none
