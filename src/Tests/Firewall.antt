-- ===== src/Tests/Firewall.antt =====
-- internal/fw: a log line that is parsed, and the filter.
use vps_safe_dashboard.Prelude.{
  ℕ, ◌≡◌, refl, ◌&&◌, ◌||◌, not, ◌==◌, true, false, [], ◌∷◌, none, some, codes, any, arith,
}
use vps_safe_dashboard.Event.{FirewallEvent, new_rate_limiter}
use vps_safe_dashboard.Event.Ipv4.{ipv4_to_uint32}
use vps_safe_dashboard.Fw.Filter.{
  IpNet, FwFilter, contains_ipv4, is_internal_ipv4, is_excluded, loaded, should_drop, Learner,
  learn,
}
use vps_safe_dashboard.Fw.Filter.Masks.{in_net, is_internal_ipv4_lem}
use vps_safe_dashboard.Fw.Filter.Decision.{
  listed, loaded_has, in_nets, should_drop_lem, learn_shared,
}

-- 10.0.0.0/8
abbrev private_net : IpNet
private_net = record { ip = 10 ∷ 0 ∷ 0 ∷ 0 ∷ []; ones = 8; bits = 32 }

-- 10.1.2.3
abbrev inside : ℕ
inside = 167838211

net_base : ipv4_to_uint32 (10 ∷ 0 ∷ 0 ∷ 0 ∷ []) ≡ 167772160
unfolding ipv4_to_uint32
net_base = refl

is_internal_ipv4_example :
    is_internal_ipv4 inside (private_net ∷ []) ≡ any (in_net inside) (private_net ∷ [])
is_internal_ipv4_example =
    is_internal_ipv4_lem inside (private_net ∷ []) (omega arith)
      ((omega arith, omega (arith, net_base)), tt)

abbrev filter : FwFilter
filter = record {
  exclude_internal = true;
  filter_dst_internal = false;
  cidrs = private_net ∷ [];
  exclude_ips = [];
  dynamic = some 1;
}

abbrev from_inside : FirewallEvent
from_inside = record {
  ts = 0;
  chain = codes "FWIN";
  action = codes "DROP";
  proto = 6;
  src_ip = inside;
  src_port = 4000;
  dst_ip = 16909060;
  dst_port = 22;
  raw = [];
}

should_drop_example :
    should_drop filter [] from_inside
    ≡ (not (inside == 0) && (contains_ipv4 inside [] || loaded_has inside (loaded (some 1) [])))
      || (true
          && (in_nets inside (private_net ∷ []) || (false && in_nets 16909060 (private_net ∷ []))))
should_drop_example =
    should_drop_lem filter [] from_inside (omega arith) (omega arith)
      ((omega arith, omega (arith, net_base)), tt)

abbrev learner : Learner
learner = record { filter = filter; cells = (1, []) ∷ []; rep = new_rate_limiter 300; sys = none }

learn_example :
    is_excluded filter (learn 1 2 3 9 30 (some (16909060 ∷ [])) learner).cells 16909060
    ≡ contains_ipv4 16909060 [] || listed 16909060 (16909060 ∷ [])
learn_example =
    learn_shared 1 2 3 9 1 30 (16909060 ∷ []) learner filter 16909060 (omega arith, tt) refl refl
