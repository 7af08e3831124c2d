-- ===== src/Event/Channels/Fifo.antt =====
-- Drain loses nothing, ends, and keeps the order of each channel.
use vps_safe_dashboard.Prelude.{
  ℕ, zero, suc, ◌+◌, ◌<◌, ◌≡◌, refl, ap, sym, ◌∙◌, Bool, true, false, List, [], ◌∷◌, ◌++◌, map,
  Option, some, length, length-append, arith, min, List-cases, inl, inr,
}
use mathlib.Core.List.{append-nil}
use vps_safe_dashboard.Event.Channels.{
  Kind, Event, Channels, Delivery, first, rest, drain_round, after_round, drain, in_flight,
}

abbrev pub same_kind : Kind → Kind → Bool
same_kind Kind.resource Kind.resource = true
same_kind Kind.conn Kind.conn = true
same_kind Kind.ssh Kind.ssh = true
same_kind Kind.fw Kind.fw = true
same_kind Kind.f2b Kind.f2b = true
same_kind Kind.system Kind.system = true
same_kind Kind.cred Kind.cred = true
same_kind _ _ = false

length-first {ℓ} :
    {A : Type 0} {B : Type ℓ} (wrap : A → B) (q : List A) → length (first wrap q) ≡ min 1 (length q)
length-first wrap [] = refl
length-first wrap (v ∷ q) = omega arith

length-rest : {A : Type 0} (q : List A) → length q ≡ min 1 (length q) + length (rest q)
length-rest [] = refl
length-rest (v ∷ q) = omega arith

map_empty {ℓ} : {A : Type 0} {B : Type ℓ} (f : A → B) (q : List A) → length q ≡ 0 → map f q ≡ []
map_empty f [] h = refl
map_empty f (v ∷ q) h = absurd (omega arith)

module _ {F M : Type 0} where
  -- The values that are delivered under kind `k`, in the order of the deliveries.
  abbrev pub delivered : Kind → List (Delivery F M) → List (Event F M)
  delivered k [] = []
  delivered k ((j, v) ∷ ds) = elim (same_kind k j) [
    | true ↦ v ∷ delivered k ds
    | false ↦ delivered k ds
  ]

  -- What waits in the channel of kind `k`, the oldest first.
  abbrev pub pending : Kind → Channels F M → List (Event F M)
  pending Kind.resource c = map Event.resource c.resource.queue
  pending Kind.conn c = map Event.conn c.conn.queue
  pending Kind.ssh c = map Event.ssh c.ssh.queue
  pending Kind.fw c = map Event.fw c.fw.queue
  pending Kind.f2b c = map Event.f2b c.f2b.queue
  pending Kind.system c = map Event.system c.system.queue
  pending Kind.cred c = map Event.cred c.cred.queue

  delivered-append :
      (k : Kind) (xs ys : List (Delivery F M))
      → delivered k (xs ++ ys) ≡ delivered k xs ++ delivered k ys
  delivered-append k [] ys = refl
  delivered-append k ((j, v) ∷ xs) ys = ground (arith, delivered-append k xs ys)

  delivered-first :
      {A : Type 0} (k j : Kind) (wrap : A → Event F M) (q : List A)
      → delivered k (first (λ v. (j, wrap v)) q)
        ≡ elim (same_kind k j) [ true ↦ first wrap q | false ↦ [] ]
  delivered-first k j wrap [] = ground arith
  delivered-first k j wrap (v ∷ q) = ground arith

  first-rest :
      {A : Type 0} (wrap : A → Event F M) (q : List A)
      → first wrap q ++ map wrap (rest q) ≡ map wrap q
  first-rest wrap [] = refl
  first-rest wrap (v ∷ q) = refl

  ruleset fifo_laws = (delivered-append, delivered-first, append-nil, first-rest)

  round_pending :
      (k : Kind) (c : Channels F M)
      → delivered k (drain_round c) ++ pending k (after_round c) ≡ pending k c
  unfolding drain_round after_round
  round_pending Kind.resource c = simp fifo_laws
  round_pending _ c = simp fifo_laws

  length-drain_round :
      (c : Channels F M)
      → length (drain_round c)
        ≡ min 1 (length c.resource.queue)
          + (min 1 (length c.conn.queue)
              + (min 1 (length c.ssh.queue)
                  + (min 1 (length c.fw.queue)
                      + (min 1 (length c.f2b.queue)
                          + (min 1 (length c.cred.queue) + min 1 (length c.system.queue))))))
  unfolding drain_round
  length-drain_round c = simp (length-append, length-first)

  -- Each round takes out of the channels what it delivers.
  in_flight_round :
      (c : Channels F M) → in_flight c ≡ length (drain_round c) + in_flight (after_round c)
  unfolding after_round in_flight
  in_flight_round c = omega (
    arith,
    length-drain_round c,
    length-rest c.resource.queue,
    length-rest c.conn.queue,
    length-rest c.ssh.queue,
    length-rest c.fw.queue,
    length-rest c.f2b.queue,
    length-rest c.cred.queue,
    length-rest c.system.queue,
  )

  -- An empty round means that every channel is empty.
  in_flight_nil : (c : Channels F M) → length (drain_round c) ≡ 0 → in_flight c ≡ 0
  unfolding in_flight
  in_flight_nil c h = omega (arith, length-drain_round c)

  pub pending_nil : (k : Kind) (c : Channels F M) → in_flight c ≡ 0 → pending k c ≡ []
  unfolding in_flight
  pending_nil Kind.resource c h = map_empty Event.resource c.resource.queue (omega arith)
  pending_nil Kind.conn c h = map_empty Event.conn c.conn.queue (omega arith)
  pending_nil Kind.ssh c h = map_empty Event.ssh c.ssh.queue (omega arith)
  pending_nil Kind.fw c h = map_empty Event.fw c.fw.queue (omega arith)
  pending_nil Kind.f2b c h = map_empty Event.f2b c.f2b.queue (omega arith)
  pending_nil Kind.system c h = map_empty Event.system c.system.queue (omega arith)
  pending_nil Kind.cred c h = map_empty Event.cred c.cred.queue (omega arith)

  abbrev pub Drained : Channels F M → Option (Channels F M × List (Delivery F M)) → Type 0
  Drained c r =
      (c' : Channels F M) × (out : List (Delivery F M)) × (r ≡ some (c', out))
      × (in_flight c' ≡ 0)
      × ((k : Kind) → delivered k out ≡ pending k c)

  -- With more fuel than events in flight the loop ends; all channels are then empty, and for each
  -- kind exactly what waited in its channel has been delivered, in its order.
  pub drain_lem : (fuel : ℕ) (c : Channels F M) → in_flight c < fuel → Drained c (drain fuel c)
  unfolding drain
  drain_lem zero c h = absurd (omega arith)
  drain_lem (suc fuel) c h = elim (List-cases (drain_round c)) [
    | inl e ↦
        let z : in_flight c ≡ 0 = in_flight_nil c (ap length e) in
        (
          after_round c,
          [],
          rw (e, drain),
          omega (arith, in_flight_round c),
          λ k. sym (pending_nil k c z),
        )
    | inr (d, ds, e) ↦
        let (c', out, p, z, f) =
          drain_lem fuel (after_round c) (omega (arith, in_flight_round c, ap length e)) in
        (
          c',
          (d ∷ ds) ++ out,
          rw (e, drain, p),
          z,
          λ k. delivered-append k (d ∷ ds) out ∙ rw (f k, ← e) (round_pending k c),
        )
  ]
