-- ===== src/Conn/Overrun.antt =====
-- internal/conn/conn.go: checkOverrun, which watches the kernel's count of dropped events. The reading
-- of the count and the outcome of SetReadBuffer come from outside.
pub mod Total
use vps_safe_dashboard.Prelude.{
  ℕ, ◌+◌, ◌-◌, ◌%◌, ◌^◌, Bool, true, false, List, [], ◌∷◌, Option, none, some, ltb, ◌==◌,
  if◌then◌else◌,
}
use vps_safe_dashboard.Text.{map_option}
use vps_safe_dashboard.Event.{SystemEvent, Chan, Source, Level, report_sys}
use vps_safe_dashboard.Conn.Loop.{netlink_buffer_max, enlarge}

-- The texts of its reports.
pub data Message : Type 0 where
  unreadable : Message
  overrun : ℕ → Message
  not_enlarged : ℕ → Message
  enlarged : ℕ → Message

-- What the caller holds: `counter` is nil or the shared count, a uint64 as `last_drops` is.
pub record Watch : Type 0 where
  pub sys : Option (Chan (SystemEvent Message))
  pub buf_size : ℕ
  pub counter : Option ℕ
  pub last_drops : ℕ
  pub first : Bool

-- A check: what the clock says at its two reports, the count that is read, or `none` for an error,
-- and whether the buffer can be enlarged.
pub record Reading : Type 0 where
  pub t1 : ℕ
  pub t2 : ℕ
  pub drops : Option ℕ
  pub enlarges : Bool

unfoldable pub enlarge_buffer : Reading → Watch → Watch
enlarge_buffer r w =
    if ltb w.buf_size netlink_buffer_max
    then (let size = enlarge w.buf_size in
        if r.enlarges
        then record w {
          buf_size = size;
          sys = report_sys r.t2 Source.conntrack Level.info (enlarged size) w.sys;
        }
        else record w {
          buf_size = size;
          sys = report_sys r.t2 Source.conntrack Level.warn (not_enlarged size) w.sys;
        })
    else w

-- drops - *lastDrops of uint64
abbrev pub since_last : ℕ → ℕ → ℕ
since_last drops last = (drops + 2 ^ 64 - last) % 2 ^ 64

unfoldable pub count_overrun : Reading → ℕ → Watch → Watch
count_overrun r diff w = record w {
  sys = report_sys r.t1 Source.conntrack Level.warn (overrun diff) w.sys;
  counter = map_option (λ c. (c + diff) % 2 ^ 64) w.counter;
}

-- What is done with a count that was read.
unfoldable pub compare_drops : Reading → ℕ → Watch → Watch
compare_drops r drops w =
    let diff = since_last drops w.last_drops in
    let seen : Watch = record w { last_drops = drops } in
    if w.first
    then record w { first = false; last_drops = drops }
    else if diff == 0
    then seen
    else enlarge_buffer r (count_overrun r diff seen)

unfoldable pub check_drops : Reading → Option ℕ → Watch → Watch
check_drops r none w = record w {
  sys = report_sys r.t1 Source.conntrack Level.warn unreadable w.sys;
}
check_drops r (some drops) w = compare_drops r drops w

abbrev pub check_overrun : Reading → Watch → Watch
check_overrun r w = check_drops r r.drops w

unfoldable pub check_all : List Reading → Watch → Watch
check_all [] w = w
check_all (r ∷ rs) w = check_all rs (check_overrun r w)
