-- ===== src/Config.antt =====
-- internal/config/config.go: the configuration and its default values. An `int` is ℤ.
pub mod HostPort
pub mod ClockTime
pub mod Validate
use vps_safe_dashboard.Prelude.{ℕ, Bool, true, false, List, [], Bytes, codes}
use vps_safe_dashboard.Prelude.Assoc.{Assoc}
use vps_safe_dashboard.Text.{ℤ, pos}
use vps_safe_dashboard.Honeypot.Protocols.{default_listen}

pub record CollectCfg : Type 0 where
  pub resource_interval_seconds : ℤ

pub record SsCfg : Type 0 where
  pub snapshot_interval_s : ℤ

pub record ConntrackCfg : Type 0 where
  pub buffer_size_kb : ℤ
  pub enable_acct : Bool
  pub overrun_warn_interval_s : ℤ
  pub fallback_interval_s : ℤ
  pub mode : Bytes

pub record SshCfg : Type 0 where
  pub source : Bytes

pub record FwCfg : Type 0 where
  pub source : Bytes
  pub prefix : Bytes
  pub exclude_internal : Bool
  pub internal_cidrs : List Bytes
  pub filter_dst_internal : Bool
  pub exclude_ips : List Bytes
  pub ssh_learn_enabled : Bool
  pub ssh_learn_window_days : ℤ
  pub ssh_learn_interval_min : ℤ

pub record F2bCfg : Type 0 where
  pub enabled : Bool
  pub log_path : Bytes
  pub db_path : Bytes

pub record DbCfg : Type 0 where
  pub path : Bytes
  pub batch_interval_ms : ℤ
  pub batch_size : ℤ
  pub archive_dir : Bytes
  pub retention_days : ℤ
  pub cred_retention_days : ℤ

pub record ArchiveCfg : Type 0 where
  pub monthly_hour : Bytes
  pub gzip_level : ℤ
  pub copy_after_days : ℤ

pub record WebCfg : Type 0 where
  pub listen : Bytes
  pub ws_origin_allow : Bytes
  pub ws_max_conns : ℤ
  pub rate_limit_rps : ℤ
  pub rate_limit_burst : ℤ
  pub heavy_limit_rps : ℤ

pub record DiskCfg : Type 0 where
  pub warn_percent : ℤ
  pub critical_percent : ℤ
  pub emergency_percent : ℤ

pub record GeoipCfg : Type 0 where
  pub db_path : Bytes
  pub account_id : Bytes
  pub license_key : Bytes
  pub update_enabled : Bool
  pub update_hour : ℤ
  pub update_minute : ℤ

pub record HoneypotCfg : Type 0 where
  pub enabled : Bool
  pub listen : Assoc Bytes Bytes

pub record Config : Type 0 where
  pub collect : CollectCfg
  pub ss : SsCfg
  pub conntrack : ConntrackCfg
  pub ssh : SshCfg
  pub fw : FwCfg
  pub f2b : F2bCfg
  pub db : DbCfg
  pub archive : ArchiveCfg
  pub web : WebCfg
  pub disk : DiskCfg
  pub geoip : GeoipCfg
  pub honeypot : HoneypotCfg

abbrev pub defaults : Config
defaults = record {
  collect = record { resource_interval_seconds = pos 5 };
  ss = record { snapshot_interval_s = pos 20 };
  conntrack = record {
    buffer_size_kb = pos 2048;
    enable_acct = true;
    overrun_warn_interval_s = pos 60;
    fallback_interval_s = pos 5;
    mode = codes "auto";
  };
  ssh = record { source = codes "journald" };
  fw = record {
    source = codes "journald-kernel";
    prefix = codes "SENTRY_FW:";
    exclude_internal = true;
    internal_cidrs = [];
    filter_dst_internal = false;
    exclude_ips = [];
    ssh_learn_enabled = true;
    ssh_learn_window_days = pos 30;
    ssh_learn_interval_min = pos 10;
  };
  f2b = record {
    enabled = true;
    log_path = codes "/var/log/fail2ban.log";
    db_path = codes "/var/lib/fail2ban/fail2ban.sqlite3";
  };
  db = record {
    path = codes "/var/lib/sentry-agent/state.db";
    batch_interval_ms = pos 1000;
    batch_size = pos 500;
    archive_dir = codes "/var/lib/sentry-agent/archive";
    retention_days = pos 7;
    cred_retention_days = pos 90;
  };
  archive = record { monthly_hour = codes "02:00"; gzip_level = pos 6; copy_after_days = pos 60 };
  web = record {
    listen = codes "127.0.0.1:8080";
    ws_origin_allow = codes "http://127.0.0.1:8080";
    ws_max_conns = pos 100;
    rate_limit_rps = pos 10;
    rate_limit_burst = pos 20;
    heavy_limit_rps = pos 1;
  };
  disk = record { warn_percent = pos 80; critical_percent = pos 90; emergency_percent = pos 95 };
  geoip = record {
    db_path = codes "/var/lib/sentry-agent/GeoLite2-Country.mmdb";
    account_id = [];
    license_key = [];
    update_enabled = true;
    update_hour = pos 2;
    update_minute = pos 30;
  };
  honeypot = record { enabled = false; listen = default_listen };
}
