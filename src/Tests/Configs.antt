-- ===== src/Tests/Configs.antt =====
-- internal/config: the default configuration, and times of the day.
use vps_safe_dashboard.Prelude.{
  ℕ, ◌≡◌, ◌≤◌, refl, ◌↔◌, Bool, true, [], ◌∷◌, Bytes, Option, none, some, codes,
}
use vps_safe_dashboard.Text.{atoi, dec_value, parse_uint}
use vps_safe_dashboard.Text.Spaces.{strip_prefix}
use vps_safe_dashboard.Prelude.Assoc.{lookup}
use vps_safe_dashboard.Honeypot.Protocols.{is_valid_proto}
use vps_safe_dashboard.Config.HostPort.{split_host_port, bracketed_port, plain_port, cut, cut_last}
use vps_safe_dashboard.Event.Ipv4.{to4}
use vps_safe_dashboard.Fw.Filter.{IpNet}
use vps_safe_dashboard.Fw.Compile.{or_default, parse_cidrs, parse_exclude_ips}
use vps_safe_dashboard.Fw.Compile.Accepted.{IsCompiled, IsListed, parse_cidrs-validate}
use vps_safe_dashboard.Config.{Config, defaults}
use vps_safe_dashboard.Config.ClockTime.{parse_hour_minute}
use vps_safe_dashboard.Config.ClockTime.RoundTrip.{print_time, parse_hour_minute_lem}
use vps_safe_dashboard.Config.Validate.{
  validate_collect, validate_ss, validate_conntrack, validate_ssh, validate_fw, validate_cidrs,
  validate_exclude_ips, validate_f2b, validate_db, validate_archive, validate_web, validate_disk,
  validate_geoip, validate_honeypot, validate_listen, validate_listen_addr, validate,
}
use vps_safe_dashboard.Config.Validate.Sound.{IsValid, validate_lem}

-- Every mask has 32 bits, and every address is of IPv4, in what stands for net.ParseCIDR and
-- net.ParseIP.
abbrev cidr_bits : Bytes → Option ℕ
cidr_bits [] = none
cidr_bits (c ∷ s) = some 32

abbrev is_ipv4 : Bytes → Bool
is_ipv4 s = true

-- One network and one excluded address.
abbrev configured : Config
configured = record defaults {
  fw = record defaults.fw {
    internal_cidrs = codes "10.0.0.0/8" ∷ [];
    exclude_ips = codes "10.1.2.3" ∷ [];
  };
}

validate_example :
    (validate cidr_bits is_ipv4 configured ≡ none) ↔ IsValid cidr_bits is_ipv4 configured
validate_example = validate_lem cidr_bits is_ipv4 configured

validate-configured : validate cidr_bits is_ipv4 configured ≡ none
unfolding validate validate_collect validate_ss validate_conntrack validate_ssh validate_fw
    validate_cidrs validate_exclude_ips validate_f2b validate_db validate_archive validate_web
    validate_disk validate_geoip validate_honeypot validate_listen validate_listen_addr
    parse_hour_minute strip_prefix split_host_port bracketed_port plain_port cut cut_last
    is_valid_proto lookup atoi dec_value parse_uint
validate-configured = refl

parse_hour_minute_example :
    (parse_hour_minute (codes "02:30") ≡ some (2, 30))
    ↔ ((codes "02:30" ≡ print_time 2 30) × (2 ≤ 23) × (30 ≤ 59))
parse_hour_minute_example = parse_hour_minute_lem (codes "02:30") 2 30

-- In place of net.ParseCIDR and net.ParseIP.
abbrev parse_cidr : Bytes → Option IpNet
parse_cidr [] = none
parse_cidr (c ∷ s) = some (record { ip = 10 ∷ 0 ∷ 0 ∷ 0 ∷ []; ones = 8; bits = 32 })

abbrev parse_ip : Bytes → Option Bytes
parse_ip s = some (10 ∷ 1 ∷ 2 ∷ 3 ∷ [])

parse_cidrs_example :
    IsCompiled parse_cidr parse_ip
      (or_default configured.fw.internal_cidrs)
      (parse_cidrs parse_cidr parse_ip configured.fw.internal_cidrs)
    × IsListed parse_cidr parse_ip configured.fw.exclude_ips
        (parse_exclude_ips parse_cidr parse_ip configured.fw.exclude_ips)
unfolding validate validate_collect validate_ss validate_conntrack validate_ssh validate_fw
    validate_cidrs validate_exclude_ips validate_f2b validate_db validate_archive validate_web
    validate_disk validate_geoip validate_honeypot validate_listen validate_listen_addr
    parse_hour_minute strip_prefix split_host_port bracketed_port plain_port cut cut_last
    is_valid_proto lookup atoi dec_value parse_uint to4
parse_cidrs_example =
    parse_cidrs-validate parse_cidr parse_ip configured
      (refl, (refl, (refl, (refl, (refl, (refl, (refl, tt))))))) refl
