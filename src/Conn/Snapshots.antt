-- ===== src/Conn/Snapshots.antt =====
-- internal/conn/fallback.go: events from the difference of two snapshots of the connections, where
-- conntrack is not to be had. Running `ss` is outside: a round is given what runSS returned.
pub mod Keys
pub mod Difference
use vps_safe_dashboard.Prelude.{
  ℕ, ◌/◌, Bool, true, false, not, List, [], ◌∷◌, ◌++◌, Bytes, Option, none, some, if◌then◌else◌,
  list_beq, nat_eq, bytes_eq,
}
use vps_safe_dashboard.Prelude.Assoc.{Assoc, lookup, insert}
use vps_safe_dashboard.Text.{itoa}
use vps_safe_dashboard.Event.{
  ConnEvent, SnapConn, SystemEvent, Chan, Source, Level, report_sys, ev_new, ev_update, ev_destroy,
}

unfoldable pub tuple_key : ℕ → ℕ → ℕ → ℕ → ℕ → Bytes
tuple_key proto src_ip src_port dst_ip dst_port =
    itoa proto
    ++ b':'
      ∷ (itoa src_ip ++ b':' ∷ (itoa src_port ++ b':' ∷ (itoa dst_ip ++ b':' ∷ itoa dst_port)))

abbrev pub snap_key : SnapConn → Bytes
snap_key c = tuple_key c.proto c.src_ip c.src_port c.dst_ip c.dst_port

abbrev pub Snapshot : Type 0
Snapshot = Assoc Bytes SnapConn

abbrev pub approx_event : ℕ → ℕ → SnapConn → ConnEvent
approx_event ts ev_type sc = record {
  ts = ts;
  ev_type = ev_type;
  proto = sc.proto;
  src_ip = sc.src_ip;
  src_port = sc.src_port;
  dst_ip = sc.dst_ip;
  dst_port = sc.dst_port;
  src_ip6 = [];
  dst_ip6 = [];
  packets = 0;
  bytes = 0;
  mark = 0;
}

-- The first loop: the connections that were not there before.
unfoldable pub new_events : Snapshot → Snapshot → ℕ → List ConnEvent
new_events prev [] ts = []
new_events prev ((k, sc) ∷ cur) ts =
    let rest = new_events prev cur ts in
    elim (lookup k prev) [ some old ↦ rest | none ↦ approx_event ts ev_new sc ∷ rest ]

-- The second loop: what is gone, and what has another state.
unfoldable pub old_events : Snapshot → Snapshot → ℕ → List ConnEvent
old_events [] cur ts = []
old_events ((k, old) ∷ prev) cur ts =
    let rest = old_events prev cur ts in
    elim (lookup k cur) [
      | none ↦ approx_event ts ev_destroy old ∷ rest
      | some sc ↦
          if not (list_beq nat_eq sc.state old.state)
          then approx_event ts ev_update sc ∷ rest
          else rest
    ]

unfoldable pub diff_snapshots : Snapshot → Snapshot → ℕ → List ConnEvent
diff_snapshots prev cur ts = new_events prev cur ts ++ old_events prev cur ts

-- cur[snapKey(c)] = c for each connection in turn
unfoldable pub index_conns : List SnapConn → Snapshot → Snapshot
index_conns [] m = m
index_conns (c ∷ cs) m = index_conns cs (insert (snap_key c) c m)

-- A tick of the listener, where the context is not cancelled: the events that it sends, the snapshot
-- that the next one compares with, and the channel of the agent's own events. `now` is what each
-- time.Now() returns in nanoseconds. `none` is a failed run, which sends the warning `m`.
unfoldable pub fallback_round :
    {M : Type 0}
    → M
    → ℕ
    → Option (List SnapConn)
    → Snapshot × Option (Chan (SystemEvent M))
    → List ConnEvent × Snapshot × Option (Chan (SystemEvent M))
fallback_round m now none (prev, sys) = ([], prev, report_sys now Source.conntrack Level.warn m sys)
fallback_round m now (some conns) (prev, sys) =
    let cur = index_conns conns [] in (diff_snapshots prev cur (now / 1000000000), cur, sys)
