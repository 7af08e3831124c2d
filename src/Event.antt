-- ===== src/Event.antt =====
-- internal/event/event.go: the event types, and the reporting of the collectors' own events.
-- Integers of a fixed width are natural numbers; a time is in nanoseconds since 1970, from a clock that
-- is not before. The zero time, of the year 1, reads as 0 too: it stands only for what has never been
-- reported, in time.Since and Sub against limits of minutes, which it exceeds as 0 does once the clock
-- is that far past 1970. A message text is abstract: each component has its own type `M` of messages.
pub mod Ipv4
pub mod Micros
pub mod Channels
pub mod Reporting
use vps_safe_dashboard.Prelude.{
  ℕ, ◌+◌, ◌-◌, ◌*◌, ◌/◌, Bool, true, false, List, [], ◌∷◌, ◌++◌, Bytes, ltb, if◌then◌else◌, length,
  Option, none, some, min,
}
use vps_safe_dashboard.Utf8.{truncate_runes}

abbrev pub ev_new : ℕ
ev_new = 1

abbrev pub ev_update : ℕ
ev_update = 2

abbrev pub ev_destroy : ℕ
ev_destroy = 3

abbrev pub proto_tcp : ℕ
proto_tcp = 6

abbrev pub proto_udp : ℕ
proto_udp = 17

abbrev pub proto_icmp : ℕ
proto_icmp = 1

abbrev pub result_fail : ℕ
result_fail = 0

abbrev pub result_ok : ℕ
result_ok = 1

abbrev pub result_unknown : ℕ
result_unknown = 2

-- The percentages and sizes are floats in the source, and no operation here reads them: their type
-- is a parameter.
pub record ResourceSample (F : Type 0) : Type 0 where
  pub ts : ℕ
  pub cpu_percent : F
  pub mem_used_mb : F
  pub mem_percent : F
  pub disk_used_mb : F
  pub disk_percent : F
  pub net_rx_bps : ℕ
  pub net_tx_bps : ℕ

pub record ConnEvent : Type 0 where
  pub ts : ℕ
  pub ev_type : ℕ
  pub proto : ℕ
  pub src_ip : ℕ
  pub src_port : ℕ
  pub dst_ip : ℕ
  pub dst_port : ℕ
  pub src_ip6 : Bytes
  pub dst_ip6 : Bytes
  pub packets : ℕ
  pub bytes : ℕ
  pub mark : ℕ

-- `pid` is -1 in the source where it is not known, and `none` here.
pub record SnapConn : Type 0 where
  pub proto : ℕ
  pub src_ip : ℕ
  pub src_port : ℕ
  pub dst_ip : ℕ
  pub dst_port : ℕ
  pub state : Bytes
  pub pid : Option ℕ

pub record SshAttempt : Type 0 where
  pub ts : ℕ
  pub src_ip : ℕ
  pub username : Bytes
  pub auth_method : Bytes
  pub result : ℕ
  pub fingerprint : Bytes
  pub detail : Bytes

pub record FirewallEvent : Type 0 where
  pub ts : ℕ
  pub chain : Bytes
  pub action : Bytes
  pub proto : ℕ
  pub src_ip : ℕ
  pub src_port : ℕ
  pub dst_ip : ℕ
  pub dst_port : ℕ
  pub raw : Bytes

pub record BanEvent : Type 0 where
  pub ts : ℕ
  pub ip : ℕ
  pub type : Bytes
  pub jail : Bytes

-- The strings that the source uses as `Source` and as `Level`.
pub data Source : Type 0 where
  collector conntrack ssh fw f2b archiver disk honeypot store : Source

pub data Level : Type 0 where
  info warn error : Level

pub record SystemEvent (M : Type 0) : Type 0 where
  pub ts : ℕ
  pub source : Source
  pub level : Level
  pub message : M

pub record CredEvent : Type 0 where
  pub ts : ℕ
  pub proto : Bytes
  pub src_ip : ℕ
  pub username : Bytes
  pub password : Bytes
  pub extra : Bytes

-- A bounded channel: its capacity and what waits in it, the oldest first.
pub record Chan (A : Type 0) : Type 0 where
  pub capacity : ℕ
  pub queue : List A

-- select { case ch <- v: default: }, with whether the value was sent.
unfoldable pub try_send : {A : Type 0} → Chan A → A → Chan A × Bool
try_send ch v =
    if ltb (length ch.queue) ch.capacity
    then (record ch { queue = ch.queue ++ v ∷ [] }, true)
    else (ch, false)

-- `none` is the nil channel. `now` is what time.Now() returns.
unfoldable pub report_sys :
    {M : Type 0}
    → ℕ
    → Source
    → Level
    → M
    → Option (Chan (SystemEvent M))
    → Option (Chan (SystemEvent M))
unfolding try_send
report_sys now source level message none = none
report_sys now source level message (some sys) =
    some
      (try_send sys
        (record { ts = now / 1000000000; source = source; level = level; message = message })).0

unfoldable pub truncate512 : Bytes → Bytes
unfolding truncate_runes
truncate512 = truncate_runes 512

pub record RateLimiter : Type 0 where
  pub last : ℕ
  pub limit : ℕ

abbrev pub new_rate_limiter : ℕ → RateLimiter
new_rate_limiter limit = record { last = 0; limit = limit }

-- time.Since saturates at the greatest Duration.
abbrev pub max_duration : ℕ
max_duration = 9223372036854775807

abbrev pub since : ℕ → ℕ → ℕ
since now t = min (now - t) max_duration

-- The clock is read three times, at `t1`, `t2` and `t3`: by time.Since, for `last`, by ReportSys.
unfoldable pub report :
    {M : Type 0}
    → ℕ
    → ℕ
    → ℕ
    → Source
    → Level
    → M
    → RateLimiter × Option (Chan (SystemEvent M))
    → RateLimiter × Option (Chan (SystemEvent M))
unfolding report_sys
report t1 t2 t3 source level message (r, sys) =
    if ltb (since t1 r.last) r.limit
    then (r, sys)
    else (record r { last = t2 }, report_sys t3 source level message sys)
