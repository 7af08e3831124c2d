-- ===== src/Fw/Filter/Decision.antt =====
-- What the filter drops, on every path, and what the learner adds to it.
use vps_safe_dashboard.Prelude.{
  ℕ, ◌/◌, ◌%◌, ◌^◌, ◌<◌, ◌≡◌, refl, ◌∙◌, Bool, true, false, ◌&&◌, ◌||◌, not, List, [], ◌∷◌, Bytes,
  Option, none, some, ◌==◌, if◌then◌else◌, any, All, map, nat_eq, arith,
}
use vps_safe_dashboard.Prelude.Assoc.{lookup-insert_self}
use vps_safe_dashboard.Event.{FirewallEvent}
use vps_safe_dashboard.Event.Ipv4.{to4, ipv4_to_uint32, ipv4_to_uint32_four}
use vps_safe_dashboard.Fw.Filter.{
  IpNet, Cells, FwFilter, contains_ipv4, is_internal_src, is_internal_either, is_empty, loaded,
  is_excluded, should_drop, ipv4_to_net_ip, Learner, learn, set_dynamic_exclude_ips,
}
use vps_safe_dashboard.Fw.Filter.Masks.{in_net, IsNet, is_internal_ipv4_lem}

-- An address that is listed as one of `ips`.
abbrev pub listed : ℕ → List ℕ → Bool
listed ip ips = any (λ v. v == ip) ips

to4-ipv4_to_net_ip : (v : ℕ) → to4 (ipv4_to_net_ip v) ≡ some (ipv4_to_net_ip v)
unfolding to4 ipv4_to_net_ip
to4-ipv4_to_net_ip v = refl

-- The learner's bytes stand for the address that they are made from.
pub ipv4_to_uint32-ipv4_to_net_ip : (v : ℕ) → v < 4294967296 → ipv4_to_uint32 (ipv4_to_net_ip v) ≡ v
unfolding ipv4_to_net_ip
ipv4_to_uint32-ipv4_to_net_ip v h =
    ipv4_to_uint32_four (v / 2 ^ 24 % 256) (v / 2 ^ 16 % 256) (v / 2 ^ 8 % 256) (v % 256)
      (omega arith) (omega arith) (omega arith) (omega arith)
    ∙ omega arith

contains_learned :
    (ip : ℕ) (ips : List ℕ)
    → All (λ v. v < 4294967296) ips
    → contains_ipv4 ip (map ipv4_to_net_ip ips) ≡ listed ip ips
unfolding contains_ipv4
contains_learned ip [] h = refl
contains_learned ip (v ∷ ips) (h, hs) =
    ground
      (arith, to4-ipv4_to_net_ip v, ipv4_to_uint32-ipv4_to_net_ip v h, contains_learned ip ips hs)

contains_nil :
    (ip : ℕ) (ns : List Bytes) → not (is_empty ns) && contains_ipv4 ip ns ≡ contains_ipv4 ip ns
unfolding contains_ipv4
contains_nil ip [] = refl
contains_nil ip (n ∷ ns) = refl

-- Whatever is loaded, a list counts only by what it holds.
abbrev pub loaded_has : ℕ → Option (List Bytes) → Bool
loaded_has ip none = false
loaded_has ip (some ips) = contains_ipv4 ip ips

is_excluded_lem :
    (f : FwFilter) (cells : Cells) (ip : ℕ)
    → is_excluded f cells ip
      ≡ contains_ipv4 ip f.exclude_ips || loaded_has ip (loaded f.dynamic cells)
unfolding is_excluded
is_excluded_lem f cells ip = rw contains_nil (cases (loaded f.dynamic cells))
  where
    cases :
        (o : Option (List Bytes))
        → (if contains_ipv4 ip f.exclude_ips
            then true
            else elim o [ none ↦ false | some ips ↦ not (is_empty ips) && contains_ipv4 ip ips ])
          ≡ contains_ipv4 ip f.exclude_ips || loaded_has ip o
    cases none = ground arith
    cases (some ips) = rw contains_nil (ground arith)

-- The address is known, and is in one of the filter's networks.
abbrev pub in_nets : ℕ → List IpNet → Bool
in_nets ip ns = not (ip == 0) && any (in_net ip) ns

src_lem :
    (ev : FirewallEvent) (ns : List IpNet)
    → ev.src_ip < 4294967296
    → All IsNet ns
    → is_internal_src ev ns ≡ in_nets ev.src_ip ns
unfolding is_internal_src
src_lem ev ns h k = ground (arith, is_internal_ipv4_lem ev.src_ip ns h k)

either_lem :
    (ev : FirewallEvent) (ns : List IpNet)
    → ev.src_ip < 4294967296
    → ev.dst_ip < 4294967296
    → All IsNet ns
    → is_internal_either ev ns ≡ in_nets ev.src_ip ns || in_nets ev.dst_ip ns
unfolding is_internal_either
either_lem ev ns h k l = ground (arith, src_lem ev ns h l, is_internal_ipv4_lem ev.dst_ip ns k l)

any_empty : (p : IpNet → Bool) (ns : List IpNet) → is_empty ns ≡ true → any p ns ≡ false
any_empty p [] h = refl
any_empty p (n ∷ ns) h = cc

-- Of addresses of 32 bits and networks with prefixes of at most 32 bits: an event is dropped exactly if its source is known and excluded, or if the
-- filter excludes internal traffic and its source, or in the wider mode its destination, is internal.
pub should_drop_lem :
    (f : FwFilter) (cells : Cells) (ev : FirewallEvent)
    → ev.src_ip < 4294967296
    → ev.dst_ip < 4294967296
    → All IsNet f.cidrs
    → should_drop f cells ev
      ≡ (not (ev.src_ip == 0)
          && (contains_ipv4 ev.src_ip f.exclude_ips
              || loaded_has ev.src_ip (loaded f.dynamic cells)))
        || (f.exclude_internal
            && (in_nets ev.src_ip f.cidrs || (f.filter_dst_internal && in_nets ev.dst_ip f.cidrs)))
unfolding should_drop
should_drop_lem f cells ev h k l =
    rw (src_lem ev f.cidrs h l, either_lem ev f.cidrs h k l, is_excluded_lem f cells ev.src_ip)
      (ground (arith, any_empty (in_net ev.src_ip) f.cidrs, any_empty (in_net ev.dst_ip) f.cidrs))

-- What the learner stores is seen through every copy `g` of the filter that shares the learner's
-- cell: after a round that learned addresses of 32 bits, g excludes exactly its own listed addresses
-- and the ones learned.
pub learn_shared :
    (t1 t2 t3 fresh cell days : ℕ) (ips : List ℕ) (l : Learner) (g : FwFilter) (ip : ℕ)
    → All (λ v. v < 4294967296) ips
    → l.filter.dynamic ≡ some cell
    → g.dynamic ≡ some cell
    → is_excluded g (learn t1 t2 t3 fresh days (some ips) l).cells ip
      ≡ contains_ipv4 ip g.exclude_ips || listed ip ips
unfolding learn set_dynamic_exclude_ips
learn_shared t1 t2 t3 fresh cell days ips l g ip h e d =
    is_excluded_lem g _ ip ∙ rw (e, d) (rw (lookup-insert_self, contains_learned ip ips h))
