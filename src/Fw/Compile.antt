-- ===== src/Fw/Compile.antt =====
-- internal/fw/filter.go: ParseCIDRs and ParseExcludeIPs, which compile the configuration. net.ParseCIDR
-- and net.ParseIP of the standard library are parameters.
pub mod Accepted
use vps_safe_dashboard.Prelude.{List, [], ◌∷◌, Bytes, Option, none, some, codes}
use vps_safe_dashboard.Text.{map_option}
use vps_safe_dashboard.Event.Ipv4.{to4}
use vps_safe_dashboard.Fw.Filter.{IpNet}

abbrev pub default_internal_cidrs : List Bytes
default_internal_cidrs =
    codes "127.0.0.0/8"
    ∷ codes "10.0.0.0/8"
    ∷ codes "172.16.0.0/12"
    ∷ codes "192.168.0.0/16"
    ∷ codes "100.64.0.0/10"
    ∷ codes "169.254.0.0/16"
    ∷ codes "224.0.0.0/4"
    ∷ []

abbrev pub or_default : List Bytes → List Bytes
or_default [] = default_internal_cidrs
or_default (s ∷ ss) = s ∷ ss

-- The element in front, where both are there.
abbrev pub in_front {ℓ} : {A : Type ℓ} → Option A → Option (List A) → Option (List A)
in_front none rest = none
in_front (some a) rest = map_option (λ l. a ∷ l) rest

module _ (parse_cidr : Bytes → Option IpNet) (parse_ip : Bytes → Option Bytes) where
  unfoldable pub parse_nets : List Bytes → Option (List IpNet)
  parse_nets [] = some []
  parse_nets (s ∷ ss) = in_front (parse_cidr s) (parse_nets ss)

  unfoldable pub parse_cidrs : List Bytes → Option (List IpNet)
  parse_cidrs cidrs = parse_nets (or_default cidrs)

  -- The address of IPv4 that a text stands for, in four bytes.
  abbrev pub four_bytes : Option Bytes → Option Bytes
  four_bytes none = none
  four_bytes (some ip) = to4 ip

  unfoldable pub parse_exclude_ips : List Bytes → Option (List Bytes)
  parse_exclude_ips [] = some []
  parse_exclude_ips (s ∷ ss) = in_front (four_bytes (parse_ip s)) (parse_exclude_ips ss)
