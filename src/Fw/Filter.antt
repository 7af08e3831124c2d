-- ===== src/Fw/Filter.antt =====
-- internal/fw/filter.go and ssh_learn.go: which firewall events are dropped before they are stored.
pub mod Masks
pub mod Decision
use Prim.Native.Nat.{bit_and}
use vps_safe_dashboard.Prelude.{
  ℕ, ◌-◌, ◌*◌, ◌/◌, ◌%◌, ◌^◌, Bool, true, false, ◌&&◌, ◌||◌, not, List, [], ◌∷◌, Bytes, Option,
  none, some, ltb, ◌==◌, if◌then◌else◌, length, map, length, nat_eq,
}
use vps_safe_dashboard.Prelude.Assoc.{Assoc, lookup, insert}
use vps_safe_dashboard.Event.{
  FirewallEvent, SystemEvent, Chan, Source, Level, RateLimiter, report, report_sys,
}
use vps_safe_dashboard.Event.Ipv4.{to4, ipv4_to_uint32}

-- net.IPNet: the address, and what Mask.Size() returns.
pub record IpNet : Type 0 where
  pub ip : Bytes
  pub ones : ℕ
  pub bits : ℕ

-- The cells that `DynamicExcludeIPs` points to, shared by all copies of a filter.
abbrev pub Cells : Type 0
Cells = Assoc ℕ (List Bytes)

-- `dynamic` is the address of a cell, or nil.
pub record FwFilter : Type 0 where
  pub exclude_internal : Bool
  pub filter_dst_internal : Bool
  pub cidrs : List IpNet
  pub exclude_ips : List Bytes
  pub dynamic : Option ℕ

-- `fresh` is the address of the cell that the first call allocates.
unfoldable pub set_dynamic_exclude_ips : ℕ → List Bytes → FwFilter × Cells → FwFilter × Cells
set_dynamic_exclude_ips fresh ips (f, cells) = elim f.dynamic [
  | none ↦ (record f { dynamic = some fresh }, insert fresh ips cells)
  | some cell ↦ (f, insert cell ips cells)
]

unfoldable pub contains_ipv4 : ℕ → List Bytes → Bool
contains_ipv4 ip [] = false
contains_ipv4 ip (n ∷ ns) =
    let rest = contains_ipv4 ip ns in
    elim (to4 n) [ none ↦ rest | some v4 ↦ if ipv4_to_uint32 n == ip then true else rest ]

-- ^uint32(0) << (32 - ones)
unfoldable pub prefix_mask : ℕ → ℕ
prefix_mask ones = 4294967295 * 2 ^ (32 - ones) % 4294967296

unfoldable pub is_internal_ipv4 : ℕ → List IpNet → Bool
is_internal_ipv4 ip [] = false
is_internal_ipv4 ip (n ∷ ns) =
    let rest = is_internal_ipv4 ip ns in
    if not (n.bits == 32)
    then rest
    else (let mask = prefix_mask n.ones in
        if bit_and ip mask == bit_and (ipv4_to_uint32 n.ip) mask then true else rest)

unfoldable pub is_internal_src : FirewallEvent → List IpNet → Bool
is_internal_src ev cidrs = if ev.src_ip == 0 then false else is_internal_ipv4 ev.src_ip cidrs

unfoldable pub is_internal_either : FirewallEvent → List IpNet → Bool
is_internal_either ev cidrs =
    if is_internal_src ev cidrs
    then true
    else if not (ev.dst_ip == 0) && is_internal_ipv4 ev.dst_ip cidrs
    then true
    else false

abbrev pub is_empty {ℓ} : {A : Type ℓ} → List A → Bool
is_empty [] = true
is_empty (x ∷ xs) = false

-- The list that the pointer's cell holds, if there is one.
abbrev pub loaded : Option ℕ → Cells → Option (List Bytes)
loaded none cells = none
loaded (some cell) cells = lookup cell cells

-- The tests of the two lists of excluded addresses.
unfoldable pub is_excluded : FwFilter → Cells → ℕ → Bool
is_excluded f cells src =
    if not (is_empty f.exclude_ips) && contains_ipv4 src f.exclude_ips
    then true
    else elim (loaded f.dynamic cells) [
      | none ↦ false
      | some ips ↦ not (is_empty ips) && contains_ipv4 src ips
    ]

unfoldable pub should_drop : FwFilter → Cells → FirewallEvent → Bool
should_drop f cells ev =
    if not (ev.src_ip == 0) && is_excluded f cells ev.src_ip
    then true
    else if not f.exclude_internal || is_empty f.cidrs
    then false
    else if f.filter_dst_internal
    then is_internal_either ev f.cidrs
    else is_internal_src ev f.cidrs

-- ssh_learn.go: the four bytes of an address.
unfoldable pub ipv4_to_net_ip : ℕ → Bytes
ipv4_to_net_ip v = (v / 2 ^ 24 % 256) ∷ (v / 2 ^ 16 % 256) ∷ (v / 2 ^ 8 % 256) ∷ (v % 256) ∷ []

-- The texts that the learner reports.
pub data Message : Type 0 where
  query_failed : Message
  updated : ℕ → ℕ → Message

-- What a round of the learner changes: the filter that it holds, the cells, its rate limiter, and the
-- channel of the agent's own events.
pub record Learner : Type 0 where
  pub filter : FwFilter
  pub cells : Cells
  pub rep : RateLimiter
  pub sys : Option (Chan (SystemEvent Message))

-- A round of the learner, with what the query returned: `none` is an error. `t1`, `t2` and `t3` are
-- what the clock says, and `fresh` is the address of a cell that a first call allocates.
unfoldable pub learn : ℕ → ℕ → ℕ → ℕ → ℕ → Option (List ℕ) → Learner → Learner
learn t1 t2 t3 fresh days none l =
    let (rep, sys) = report t1 t2 t3 Source.fw Level.warn query_failed (l.rep, l.sys) in
    record l { rep = rep; sys = sys }
learn t1 t2 t3 fresh days (some ips) l =
    let parsed = map ipv4_to_net_ip ips in
    let (filter, cells) = set_dynamic_exclude_ips fresh parsed (l.filter, l.cells) in
    record l {
      filter = filter;
      cells = cells;
      sys = report_sys t3 Source.fw Level.info (updated (length parsed) days) l.sys;
    }
