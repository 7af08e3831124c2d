-- ===== src/Conn/Flows.antt =====
-- internal/conn/conn.go: connEventFromCon. `Con` has what the code reads of the conntrack library's
-- type, with an option for each pointer. net.IP.String of an address that is not of IPv4 is the
-- parameter `ip_text`.
pub mod Tuple
use vps_safe_dashboard.Prelude.{ℕ, ◌/◌, [], Bytes, Option, none, some, ◌==◌, if◌then◌else◌}
use vps_safe_dashboard.Event.{ConnEvent, ev_new, ev_update, ev_destroy, proto_icmp}
use vps_safe_dashboard.Event.Ipv4.{to4, ipv4_to_uint32}

pub record ProtoTuple : Type 0 where
  pub number : Option ℕ
  pub src_port : Option ℕ
  pub dst_port : Option ℕ

pub record IpTuple : Type 0 where
  pub src : Option Bytes
  pub dst : Option Bytes
  pub proto : Option ProtoTuple

pub record Counter : Type 0 where
  pub packets : Option ℕ
  pub bytes : Option ℕ

pub data Group : Type 0 where
  ct_new ct_update ct_destroy ct_other : Group

-- `info` is the NetlinkGroup of the source.
pub record Con : Type 0 where
  pub origin : Option IpTuple
  pub info : Option Group
  pub counter_origin : Option Counter
  pub mark : Option ℕ

-- A pointer's value, or the zero value that the event has before.
abbrev pub or_zero : Option ℕ → ℕ
or_zero none = 0
or_zero (some n) = n

unfoldable pub event_type : Option Group → ℕ
event_type (some ct_new) = ev_new
event_type (some ct_destroy) = ev_destroy
event_type _ = ev_update

-- The number and the text of an address: one of them, by whether it is of IPv4.
abbrev pub address_number : Bytes → Option Bytes → ℕ
address_number ip none = 0
address_number ip (some v4) = ipv4_to_uint32 ip

abbrev pub address_text : (Bytes → Bytes) → Bytes → Option Bytes → Bytes
address_text ip_text ip none = ip_text ip
address_text ip_text ip (some v4) = []

abbrev pub unless_icmp : ℕ → Option ℕ → ℕ
unless_icmp proto port = if proto == proto_icmp then 0 else or_zero port

abbrev pub packets_of : Option Counter → ℕ
packets_of none = 0
packets_of (some c) = or_zero c.packets

abbrev pub bytes_of : Option Counter → ℕ
bytes_of none = 0
bytes_of (some c) = or_zero c.bytes

module _ (ip_text : Bytes → Bytes) (now : ℕ) where
  abbrev pub conn_event : Con → Bytes → Bytes → ProtoTuple → ConnEvent
  conn_event c src dst p = record {
    ts = now / 1000000000;
    ev_type = event_type c.info;
    proto = or_zero p.number;
    src_ip = address_number src (to4 src);
    src_port = unless_icmp (or_zero p.number) p.src_port;
    dst_ip = address_number dst (to4 dst);
    dst_port = unless_icmp (or_zero p.number) p.dst_port;
    src_ip6 = address_text ip_text src (to4 src);
    dst_ip6 = address_text ip_text dst (to4 dst);
    packets = packets_of c.counter_origin;
    bytes = bytes_of c.counter_origin;
    mark = or_zero c.mark;
  }

  abbrev pub with_parts : Con → Option Bytes → Option Bytes → Option ProtoTuple → Option ConnEvent
  with_parts c (some src) (some dst) (some p) = some (conn_event c src dst p)
  with_parts c _ _ _ = none

  abbrev pub with_origin : Con → Option IpTuple → Option ConnEvent
  with_origin c none = none
  with_origin c (some o) = with_parts c o.src o.dst o.proto

  unfoldable pub conn_event_from_con : Con → Option ConnEvent
  conn_event_from_con c = with_origin c c.origin
