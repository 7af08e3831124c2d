-- ===== src/Config/Validate.antt =====
-- internal/config/config.go: Validate. net.ParseCIDR and net.ParseIP of the standard library are
-- parameters, with the number of bits of the mask, and with whether the address is one of IPv4.
pub mod Checks
pub mod Sections
pub mod Sound
use vps_safe_dashboard.Prelude.{
  ℕ, ◌≤◌, Bool, true, false, ◌&&◌, ◌||◌, not, List, [], ◌∷◌, Bytes, Option, none, some, codes, ltb,
  leb, ◌==◌, if◌then◌else◌, list_beq, nat_eq,
}
use vps_safe_dashboard.Prelude.Assoc.{Assoc}
use vps_safe_dashboard.Text.{ℤ, pos, negsuc, atoi}
use vps_safe_dashboard.Text.Spaces.{strip_prefix}
use vps_safe_dashboard.Honeypot.Protocols.{is_valid_proto}
use vps_safe_dashboard.Config.{
  CollectCfg, SsCfg, ConntrackCfg, SshCfg, FwCfg, F2bCfg, DbCfg, ArchiveCfg, WebCfg, DiskCfg,
  GeoipCfg, HoneypotCfg, Config,
}
use vps_safe_dashboard.Config.HostPort.{split_host_port}
use vps_safe_dashboard.Config.ClockTime.{parse_hour_minute}

-- The errors, by the key that they name.
pub data ConfigError : Type 0 where
  collect_interval ss_interval : ConfigError
  buffer_size overrun_interval fallback_interval conntrack_mode : ConfigError
  ssh_source fw_source fw_prefix : ConfigError
  bad_cidr not_ipv4_cidr bad_exclude_ip : Bytes → ConfigError
  learn_window learn_interval : ConfigError
  f2b_paths db_paths batch_interval batch_size : ConfigError
  gzip_level copy_after_days monthly_hour : ConfigError
  web_listen ws_origin_empty ws_origin ws_max_conns rate_limit rate_burst heavy_limit : ConfigError
  disk_range disk_order : ConfigError
  geoip_path update_hour update_minute : ConfigError
  unknown_proto bad_listen bad_port : Bytes → ConfigError

-- x < n, and x > n
abbrev pub below : ℤ → ℕ → Bool
below (pos x) n = ltb x n
below (negsuc x) n = true

abbrev pub above : ℤ → ℕ → Bool
above (pos x) n = ltb n x
above (negsuc x) n = false

-- x >= y of two numbers
abbrev pub at_least : ℤ → ℤ → Bool
at_least (pos x) (pos y) = leb y x
at_least (pos x) (negsuc y) = true
at_least (negsuc x) (pos y) = false
at_least (negsuc x) (negsuc y) = leb x y

abbrev pub outside : ℕ → ℕ → ℤ → Bool
outside lo hi x = below x lo || above x hi

abbrev pub is_text : Bytes → Bytes → Bool
is_text = list_beq nat_eq

abbrev pub no_text : Bytes → Bool
no_text [] = true
no_text (c ∷ s) = false

abbrev pub starts_with : Bytes → Bytes → Bool
starts_with p s = elim (strip_prefix p s) [ none ↦ false | some r ↦ true ]

abbrev pub is_none {ℓ} : {A : Type ℓ} → Option A → Bool
is_none none = true
is_none (some a) = false

-- if b { return e }, and the check that follows
abbrev pub fail_if : Bool → ConfigError → Option ConfigError → Option ConfigError
fail_if true e next = some e
fail_if false e next = next

-- if err := m; err != nil { return err }, and what follows
abbrev pub try_check : Option ConfigError → Option ConfigError → Option ConfigError
try_check none next = next
try_check (some e) next = some e

unfoldable pub validate_collect : CollectCfg → Option ConfigError
validate_collect c = fail_if (below c.resource_interval_seconds 5) collect_interval none

unfoldable pub validate_ss : SsCfg → Option ConfigError
validate_ss c = fail_if (below c.snapshot_interval_s 5) ss_interval none

unfoldable pub validate_conntrack : ConntrackCfg → Option ConfigError
validate_conntrack c = fail_if (outside 1 8192 c.buffer_size_kb) buffer_size (
    fail_if (below c.overrun_warn_interval_s 5) overrun_interval (
      fail_if (below c.fallback_interval_s 5) fallback_interval (
        fail_if (not (is_text c.mode (codes "auto")) && not (is_text c.mode (codes "fallback")))
          conntrack_mode none)))

unfoldable pub validate_ssh : SshCfg → Option ConfigError
validate_ssh c =
    fail_if (not (is_text c.source (codes "journald")) && not (is_text c.source (codes "rsyslog")))
      ssh_source none

unfoldable pub validate_f2b : F2bCfg → Option ConfigError
validate_f2b c = fail_if (no_text c.log_path || no_text c.db_path) f2b_paths none

unfoldable pub validate_db : DbCfg → Option ConfigError
validate_db c = fail_if (no_text c.path || no_text c.archive_dir) db_paths (
    fail_if (outside 100 60000 c.batch_interval_ms) batch_interval
      (fail_if (outside 1 100000 c.batch_size) batch_size none))

unfoldable pub validate_archive : ArchiveCfg → Option ConfigError
validate_archive c = fail_if (outside 1 9 c.gzip_level) gzip_level (
    fail_if (below c.copy_after_days 1) copy_after_days
      (fail_if (is_none (parse_hour_minute c.monthly_hour)) monthly_hour none))

unfoldable pub validate_web : WebCfg → Option ConfigError
validate_web c = fail_if (no_text c.listen) web_listen (
    fail_if (no_text c.ws_origin_allow) ws_origin_empty (
      fail_if
        (not (starts_with (codes "http://") c.ws_origin_allow)
          && not (starts_with (codes "https://") c.ws_origin_allow))
        ws_origin
        (fail_if (outside 1 10000 c.ws_max_conns) ws_max_conns (
          fail_if (outside 1 1000 c.rate_limit_rps) rate_limit (
            fail_if (outside 1 10000 c.rate_limit_burst) rate_burst
              (fail_if (outside 1 100 c.heavy_limit_rps) heavy_limit none))))))

unfoldable pub validate_disk : DiskCfg → Option ConfigError
validate_disk c =
    fail_if
      (outside 1 100 c.warn_percent
        || (outside 1 100 c.critical_percent || outside 1 100 c.emergency_percent))
      disk_range
      (fail_if
        (at_least c.warn_percent c.critical_percent
          || at_least c.critical_percent c.emergency_percent)
        disk_order none)

unfoldable pub validate_geoip : GeoipCfg → Option ConfigError
validate_geoip c = fail_if (no_text c.db_path) geoip_path (
    fail_if (outside 0 23 c.update_hour) update_hour
      (fail_if (outside 0 59 c.update_minute) update_minute none))

-- The port of an address, as strconv.Atoi reads it: from 1 to 65535.
abbrev pub bad_port_text : Bytes → Bool
bad_port_text port = elim (atoi port) [ none ↦ true | some n ↦ outside 1 65535 n ]

unfoldable pub validate_listen_addr : Bytes → Bytes → Option ConfigError
validate_listen_addr proto [] = none
validate_listen_addr proto (c ∷ addr) = elim (split_host_port (c ∷ addr)) [
  | none ↦ some (bad_listen proto)
  | some port ↦ fail_if (bad_port_text port) (bad_port proto) none
]

unfoldable pub validate_listen : Assoc Bytes Bytes → Option ConfigError
validate_listen [] = none
validate_listen ((proto, addr) ∷ m) =
    fail_if (not (is_valid_proto proto)) (unknown_proto proto)
      (try_check (validate_listen_addr proto addr) (validate_listen m))

abbrev pub is_empty_map : Assoc Bytes Bytes → Bool
is_empty_map [] = true
is_empty_map (e ∷ m) = false

unfoldable pub validate_honeypot : HoneypotCfg → Option ConfigError
validate_honeypot c =
    if not c.enabled && is_empty_map c.listen then none else validate_listen c.listen

module _ (cidr_bits : Bytes → Option ℕ) (is_ipv4 : Bytes → Bool) where
  unfoldable pub validate_cidrs : List Bytes → Option ConfigError
  validate_cidrs [] = none
  validate_cidrs (s ∷ ss) =
      let rest = validate_cidrs ss in
      elim (cidr_bits s) [
        | none ↦ some (bad_cidr s)
        | some bits ↦ fail_if (not (bits == 32)) (not_ipv4_cidr s) rest
      ]

  unfoldable pub validate_exclude_ips : List Bytes → Option ConfigError
  validate_exclude_ips [] = none
  validate_exclude_ips (s ∷ ss) =
      fail_if (not (is_ipv4 s)) (bad_exclude_ip s) (validate_exclude_ips ss)

  unfoldable pub validate_fw : FwCfg → Option ConfigError
  validate_fw c =
      fail_if
        (not (is_text c.source (codes "journald-kernel")) && not (is_text c.source (codes "kmsg")))
        fw_source
        (fail_if (no_text c.prefix) fw_prefix (
          try_check (validate_cidrs c.internal_cidrs) (
            try_check (validate_exclude_ips c.exclude_ips) (
              fail_if (below c.ssh_learn_window_days 1) learn_window
                (fail_if (below c.ssh_learn_interval_min 1) learn_interval none)))))

  unfoldable pub validate : Config → Option ConfigError
  validate c = try_check (validate_collect c.collect) (
      try_check (validate_ss c.ss) (
        try_check (validate_conntrack c.conntrack) (
          try_check (validate_ssh c.ssh) (
            try_check (validate_fw c.fw) (
              try_check (validate_f2b c.f2b) (
                try_check (validate_db c.db) (
                  try_check (validate_archive c.archive) (
                    try_check (validate_web c.web) (
                      try_check (validate_disk c.disk) (
                        try_check (validate_geoip c.geoip)
                          (try_check (validate_honeypot c.honeypot) none)))))))))))
