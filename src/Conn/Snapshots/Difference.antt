-- ===== src/Conn/Snapshots/Difference.antt =====
-- The events of a difference, connection by connection.
use mathlib.Core.List.{append-nil}
use vps_safe_dashboard.Prelude.{
  ℕ, ◌/◌, ◌≡◌, refl, sym, ap, ◌∙◌, true, not, Bool-cases, inl, inr, List, [], ◌∷◌, ◌++◌, Bytes,
  Option, none, some, if◌then◌else◌, list_beq, list_beq_iff, nat_eq, bytes_eq, arith,
}
use vps_safe_dashboard.Prelude.Assoc.{lookup, insert, lookup-insert}
use vps_safe_dashboard.Event.{
  ConnEvent, SnapConn, SystemEvent, Chan, Source, Level, report_sys, ev_new, ev_update, ev_destroy,
}
use vps_safe_dashboard.Conn.Snapshots.{
  tuple_key, snap_key, Snapshot, approx_event, new_events, old_events, diff_snapshots, index_conns,
  fallback_round,
}

abbrev pub event_key : ConnEvent → Bytes
event_key ev = tuple_key ev.proto ev.src_ip ev.src_port ev.dst_ip ev.dst_port

-- The events about the connection with key `k`, in their order.
unfoldable pub about : Bytes → List ConnEvent → List ConnEvent
about k [] = []
about k (ev ∷ evs) =
    let rest = about k evs in if list_beq nat_eq (event_key ev) k then ev ∷ rest else rest

-- Each key occurs once, and is the key of its connection: what a Go map indexed by snapKey is.
abbrev pub IsIndex : Snapshot → Type 0
IsIndex [] = Unit
IsIndex ((k, sc) ∷ m) = (lookup k m ≡ none) × (snap_key sc ≡ k) × IsIndex m

-- What is to be reported of one connection, from what it was and what it is.
abbrev pub transition : ℕ → Option SnapConn → Option SnapConn → List ConnEvent
transition ts none none = []
transition ts none (some sc) = approx_event ts ev_new sc ∷ []
transition ts (some old) none = approx_event ts ev_destroy old ∷ []
transition ts (some old) (some sc) =
    if not (list_beq nat_eq sc.state old.state) then approx_event ts ev_update sc ∷ [] else []

about-append : (k : Bytes) (xs ys : List ConnEvent) → about k (xs ++ ys) ≡ about k xs ++ about k ys
unfolding about
about-append k [] ys = refl
about-append k (x ∷ xs) ys = ground (arith, about-append k xs ys)

-- What the first loop reports of a connection, if it is there now.
abbrev started : ℕ → Option SnapConn → Option SnapConn → List ConnEvent
started ts o none = []
started ts none (some sc) = approx_event ts ev_new sc ∷ []
started ts (some old) (some sc) = []

lookup-cons :
    (k j : Bytes) (sc : SnapConn) (m : Snapshot)
    → lookup k ((j, sc) ∷ m) ≡ (if list_beq nat_eq j k then some sc else lookup k m)
unfolding lookup
lookup-cons k j sc m = refl

about-cons :
    (k : Bytes) (ev : ConnEvent) (evs : List ConnEvent)
    → about k (ev ∷ evs)
      ≡ (if list_beq nat_eq (event_key ev) k then ev ∷ about k evs else about k evs)
unfolding about
about-cons k ev evs = refl

about-nil : (k : Bytes) → about k [] ≡ []
unfolding about
about-nil k = refl

-- Facts about the entry `(j, sc)` of an index, where `k` is its key and where it is not.
key_test :
    (k j : Bytes) (sc : SnapConn)
    → snap_key sc ≡ j
    → list_beq nat_eq (snap_key sc) k ≡ list_beq nat_eq j k
key_test k j sc e = rw e

same_key : (k j : Bytes) → list_beq nat_eq j k ≡ true → j ≡ k
same_key k j h = (list_beq_iff nat_eq j k).0 h

about-new_events :
    (k : Bytes) (prev cur : Snapshot) (ts : ℕ)
    → IsIndex cur
    → about k (new_events prev cur ts) ≡ started ts (lookup k prev) (lookup k cur)
unfolding new_events
about-new_events k prev [] ts h = unfold lookup in about-nil k
about-new_events k prev ((j, sc) ∷ cur) ts (fresh, key, h) =
    elim (Bool-cases (list_beq nat_eq j k)) [
      | inl same ↦
          let p : j ≡ k = same_key k j same in
          ground (
            arith,
            lookup-cons k j sc cur,
            about-cons k (approx_event ts ev_new sc) (new_events prev cur ts),
            key_test k j sc key,
            ap (λ x. lookup x prev) p,
            ap (λ x. lookup x cur) p,
            about-new_events k prev cur ts h,
          )
      | inr other ↦ ground (
        arith,
        lookup-cons k j sc cur,
        about-cons k (approx_event ts ev_new sc) (new_events prev cur ts),
        key_test k j sc key,
        about-new_events k prev cur ts h,
      )
    ]

index_key :
    (k : Bytes) (m : Snapshot) (sc : SnapConn) → IsIndex m → lookup k m ≡ some sc → snap_key sc ≡ k
unfolding lookup
index_key k [] sc h e = cc
index_key k ((j, v) ∷ m) sc (fresh, key, h) e = elim (Bool-cases (list_beq nat_eq j k)) [
  | inl same ↦ cc (same_key k j same, rw same at e)
  | inr other ↦ index_key k m sc h (rw other at e)
]

-- What the second loop reports of a connection, if it was there before.
abbrev ended : ℕ → Option SnapConn → Option SnapConn → List ConnEvent
ended ts none o = []
ended ts (some old) none = approx_event ts ev_destroy old ∷ []
ended ts (some old) (some sc) =
    if not (list_beq nat_eq sc.state old.state) then approx_event ts ev_update sc ∷ [] else []

old_events-cons :
    (j : Bytes) (old : SnapConn) (prev cur : Snapshot) (ts : ℕ)
    → old_events ((j, old) ∷ prev) cur ts
      ≡ ended ts (some old) (lookup j cur) ++ old_events prev cur ts
unfolding old_events
old_events-cons j old prev cur ts = ground arith

-- All events of an entry bear its key.
about-ended :
    (k j : Bytes) (ts : ℕ) (old : SnapConn) (o : Option SnapConn)
    → snap_key old ≡ j
    → ((sc : SnapConn) → o ≡ some sc → snap_key sc ≡ j)
    → about k (ended ts (some old) o) ≡ (if list_beq nat_eq j k then ended ts (some old) o else [])
unfolding about
about-ended k j ts old none key keys = ground (arith, key_test k j old key)
about-ended k j ts old (some sc) key keys = ground (arith, key_test k j sc (keys sc refl))

about-old_events :
    (k : Bytes) (prev cur : Snapshot) (ts : ℕ)
    → IsIndex prev
    → IsIndex cur
    → about k (old_events prev cur ts) ≡ ended ts (lookup k prev) (lookup k cur)
about-old_events k [] cur ts h l = unfold lookup old_events in about-nil k
about-old_events k ((j, old) ∷ prev) cur ts (fresh, key, h) l =
    rw
      (
        old_events-cons j old prev cur ts,
        about-append k (ended ts (some old) (lookup j cur)) (old_events prev cur ts),
        about-ended k j ts old (lookup j cur) key (λ sc e. index_key j cur sc l e),
        about-old_events k prev cur ts h l,
        lookup-cons k j old prev,
      )
      (elim (Bool-cases (list_beq nat_eq j k)) [
        | inl same ↦
            let p : j ≡ k = same_key k j same in
            let gone : lookup k prev ≡ none = rw p at fresh in rw (same, p, gone) (append-nil _)
        | inr other ↦ rw other
      ])

transition_split :
    (ts : ℕ) (o n : Option SnapConn) → started ts o n ++ ended ts o n ≡ transition ts o n
transition_split ts none none = refl
transition_split ts none (some sc) = refl
transition_split ts (some old) none = refl
transition_split ts (some old) (some sc) = refl

about-diff_snapshots :
    (k : Bytes) (prev cur : Snapshot) (ts : ℕ)
    → IsIndex prev
    → IsIndex cur
    → about k (diff_snapshots prev cur ts) ≡ transition ts (lookup k prev) (lookup k cur)
unfolding diff_snapshots
about-diff_snapshots k prev cur ts h l =
    rw
      (
        about-append k (new_events prev cur ts) (old_events prev cur ts),
        about-new_events k prev cur ts l,
        about-old_events k prev cur ts h l,
      )
      (transition_split ts (lookup k prev) (lookup k cur))

insert-IsIndex :
    (k : Bytes) (sc : SnapConn) (m : Snapshot)
    → snap_key sc ≡ k
    → IsIndex m
    → IsIndex (insert k sc m)
unfolding insert
insert-IsIndex k sc [] e h = unfold lookup in (refl, e, tt)
insert-IsIndex k sc ((j, w) ∷ m) e (fresh, key, h) = elim (Bool-cases (list_beq nat_eq j k)) [
  | inl same ↦ rw same (rw (same_key k j same) at fresh, e, h)
  | inr other ↦ rw other (
    ground (arith, lookup-insert k j sc m, fresh, list_beq_iff nat_eq j k, list_beq_iff nat_eq k j),
    key,
    insert-IsIndex k sc m e h,
  )
]

index_conns-IsIndex : (cs : List SnapConn) (m : Snapshot) → IsIndex m → IsIndex (index_conns cs m)
unfolding index_conns
index_conns-IsIndex [] m h = h
index_conns-IsIndex (c ∷ cs) m h =
    index_conns-IsIndex cs (insert (snap_key c) c m) (insert-IsIndex (snap_key c) c m refl h)

transition_same : (ts : ℕ) (o : Option SnapConn) → transition ts o o ≡ []
transition_same ts none = refl
transition_same ts (some sc) = ground (arith, list_beq_iff nat_eq sc.state sc.state)

-- The snapshot and the channel that a tick leaves.
abbrev pub next_snapshot : Option (List SnapConn) → Snapshot → Snapshot
next_snapshot none prev = prev
next_snapshot (some conns) prev = index_conns conns []

abbrev pub next_sys :
    {M : Type 0}
    → M
    → ℕ
    → Option (List SnapConn)
    → Option (Chan (SystemEvent M))
    → Option (Chan (SystemEvent M))
next_sys m now none sys = report_sys now Source.conntrack Level.warn m sys
next_sys m now (some conns) sys = sys

-- What a tick promises of the connection with key `k`: it is reported as the transition between what
-- it was in the last snapshot and what it is in the one that is left, which is an index again.
abbrev pub IsTick :
    {M : Type 0}
    → Bytes
    → M
    → ℕ
    → Option (List SnapConn)
    → Snapshot
    → Option (Chan (SystemEvent M))
    → Type 0
IsTick k m now run prev sys =
    let after = fallback_round m now run (prev, sys) in
    (about k after.0 ≡ transition (now / 1000000000) (lookup k prev) (lookup k after.1))
    × IsIndex after.1
    × (after.1 ≡ next_snapshot run prev)
    × (after.2 ≡ next_sys m now run sys)

-- A tick of the fallback listener from a snapshot that is an index: of each key, it sends the events
-- of the transition between the last snapshot and the one that it leaves (NEW where the connection
-- appears, DESTROY where it is gone, UPDATE where its state changed, else nothing); that snapshot is
-- an index, of the connections that ss listed; where the run of ss failed, it is the last one, and
-- then only a warning is sent.
pub fallback_round_lem :
    {M : Type 0} (k : Bytes) (m : M) (now : ℕ) (run : Option (List SnapConn)) (prev : Snapshot)
    (sys : Option (Chan (SystemEvent M)))
    → IsIndex prev
    → IsTick k m now run prev sys
unfolding fallback_round
fallback_round_lem k m now none prev sys h =
    (about-nil k ∙ sym (transition_same (now / 1000000000) (lookup k prev)), h, refl, refl)
fallback_round_lem k m now (some conns) prev sys h =
    let cur : IsIndex (index_conns conns []) = index_conns-IsIndex conns [] tt in
    (about-diff_snapshots k prev (index_conns conns []) (now / 1000000000) h cur, cur, refl, refl)
