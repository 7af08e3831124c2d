-- ===== src/Config/Validate/Sections.antt =====
-- The sections of a configuration that Validate accepts.
use vps_safe_dashboard.Prelude.{ℕ, ◌≤◌, ◌≡◌, ap, ◌≢◌, ◌⊎◌, inl, inr, [], Bytes, codes, Option-cases}
use vps_safe_dashboard.Config.{
  CollectCfg, SsCfg, ConntrackCfg, SshCfg, F2bCfg, DbCfg, ArchiveCfg, WebCfg, DiskCfg, GeoipCfg,
}
use vps_safe_dashboard.Config.ClockTime.{parse_hour_minute}
use vps_safe_dashboard.Config.ClockTime.RoundTrip.{print_time, parse_hour_minute_lem}
use vps_safe_dashboard.Config.Validate.{
  is_none, validate_collect, validate_ss, validate_conntrack, validate_ssh, validate_f2b,
  validate_db, validate_archive, validate_web, validate_disk, validate_geoip,
}
use vps_safe_dashboard.Config.Validate.Checks.{
  AtLeast, Between, Less, Begins, Refutes, Passes, below_lem, outside_lem, at_least_lem,
  no_text_lem, is_text_lem, starts_with_lem, refutes_or, refutes_and, passes_if, passes_last,
}

-- HH:MM of a time of the day.
abbrev pub IsTime : Bytes → Type 0
IsTime s = (h : ℕ) × ((m : ℕ) × ((s ≡ print_time h m) × ((h ≤ 23) × (m ≤ 59))))

time_lem : (s : Bytes) → Refutes (is_none (parse_hour_minute s)) (IsTime s)
time_lem s = (
  λ k. elim (Option-cases (parse_hour_minute s)) [
    | inl e ↦ cc
    | inr ((h, m), e) ↦ let r = (parse_hour_minute_lem s h m).0 e in (h, (m, (r.0, (r.1, r.2))))
  ],
  λ t. ap is_none ((parse_hour_minute_lem s t.0 t.1.0).1 (t.1.1.0, t.1.1.1.0, t.1.1.1.1)),
)

abbrev pub IsCollect : CollectCfg → Type 0
IsCollect c = AtLeast 5 c.resource_interval_seconds

pub validate_collect_lem : (c : CollectCfg) → Passes (validate_collect c) (IsCollect c)
unfolding validate_collect
validate_collect_lem c = passes_last _ _ (below_lem 5 c.resource_interval_seconds)

abbrev pub IsSs : SsCfg → Type 0
IsSs c = AtLeast 5 c.snapshot_interval_s

pub validate_ss_lem : (c : SsCfg) → Passes (validate_ss c) (IsSs c)
unfolding validate_ss
validate_ss_lem c = passes_last _ _ (below_lem 5 c.snapshot_interval_s)

abbrev pub IsConntrack : ConntrackCfg → Type 0
IsConntrack c =
    Between 1 8192 c.buffer_size_kb
    × (AtLeast 5 c.overrun_warn_interval_s
        × (AtLeast 5 c.fallback_interval_s
            × (((c.mode ≡ codes "auto") ⊎ (c.mode ≡ codes "fallback")))))

pub validate_conntrack_lem : (c : ConntrackCfg) → Passes (validate_conntrack c) (IsConntrack c)
unfolding validate_conntrack
validate_conntrack_lem c = passes_if _ _ _ (outside_lem 1 8192 c.buffer_size_kb) (
    passes_if _ _ _ (below_lem 5 c.overrun_warn_interval_s) (
      passes_if _ _ _ (below_lem 5 c.fallback_interval_s) (
        passes_last _ _ (
          refutes_and _ _ (is_text_lem c.mode (codes "auto"))
            (is_text_lem c.mode (codes "fallback"))))))

abbrev pub IsSsh : SshCfg → Type 0
IsSsh c = ((c.source ≡ codes "journald") ⊎ (c.source ≡ codes "rsyslog"))

pub validate_ssh_lem : (c : SshCfg) → Passes (validate_ssh c) (IsSsh c)
unfolding validate_ssh
validate_ssh_lem c = passes_last _ _ (
    refutes_and _ _ (is_text_lem c.source (codes "journald"))
      (is_text_lem c.source (codes "rsyslog")))

abbrev pub IsF2b : F2bCfg → Type 0
IsF2b c = ((c.log_path ≢ []) × (c.db_path ≢ []))

pub validate_f2b_lem : (c : F2bCfg) → Passes (validate_f2b c) (IsF2b c)
unfolding validate_f2b
validate_f2b_lem c =
    passes_last _ _ (refutes_or _ _ (no_text_lem c.log_path) (no_text_lem c.db_path))

abbrev pub IsDb : DbCfg → Type 0
IsDb c =
    ((c.path ≢ []) × (c.archive_dir ≢ []))
    × (Between 100 60000 c.batch_interval_ms × (Between 1 100000 c.batch_size))

pub validate_db_lem : (c : DbCfg) → Passes (validate_db c) (IsDb c)
unfolding validate_db
validate_db_lem c =
    passes_if _ _ _ (refutes_or _ _ (no_text_lem c.path) (no_text_lem c.archive_dir)) (
      passes_if _ _ _ (outside_lem 100 60000 c.batch_interval_ms)
        (passes_last _ _ (outside_lem 1 100000 c.batch_size)))

abbrev pub IsArchive : ArchiveCfg → Type 0
IsArchive c = Between 1 9 c.gzip_level × (AtLeast 1 c.copy_after_days × (IsTime c.monthly_hour))

pub validate_archive_lem : (c : ArchiveCfg) → Passes (validate_archive c) (IsArchive c)
unfolding validate_archive
validate_archive_lem c =
    passes_if _ _ _ (outside_lem 1 9 c.gzip_level)
      (passes_if _ _ _ (below_lem 1 c.copy_after_days) (passes_last _ _ (time_lem c.monthly_hour)))

abbrev pub IsWeb : WebCfg → Type 0
IsWeb c =
    (c.listen ≢ [])
    × ((c.ws_origin_allow ≢ [])
        × ((Begins (codes "http://") c.ws_origin_allow
              ⊎ Begins (codes "https://") c.ws_origin_allow)
            × (Between 1 10000 c.ws_max_conns
                × (Between 1 1000 c.rate_limit_rps
                    × (Between 1 10000 c.rate_limit_burst × (Between 1 100 c.heavy_limit_rps))))))

pub validate_web_lem : (c : WebCfg) → Passes (validate_web c) (IsWeb c)
unfolding validate_web
validate_web_lem c = passes_if _ _ _ (no_text_lem c.listen) (
    passes_if _ _ _ (no_text_lem c.ws_origin_allow) (
      passes_if _ _ _
        (refutes_and _ _ (starts_with_lem (codes "http://") c.ws_origin_allow)
          (starts_with_lem (codes "https://") c.ws_origin_allow))
        (passes_if _ _ _ (outside_lem 1 10000 c.ws_max_conns) (
          passes_if _ _ _ (outside_lem 1 1000 c.rate_limit_rps) (
            passes_if _ _ _ (outside_lem 1 10000 c.rate_limit_burst)
              (passes_last _ _ (outside_lem 1 100 c.heavy_limit_rps)))))))

abbrev pub IsDisk : DiskCfg → Type 0
IsDisk c =
    (Between 1 100 c.warn_percent
      × (Between 1 100 c.critical_percent × Between 1 100 c.emergency_percent))
    × ((Less c.warn_percent c.critical_percent × Less c.critical_percent c.emergency_percent))

pub validate_disk_lem : (c : DiskCfg) → Passes (validate_disk c) (IsDisk c)
unfolding validate_disk
validate_disk_lem c =
    passes_if _ _ _
      (refutes_or _ _ (outside_lem 1 100 c.warn_percent) (
        refutes_or _ _ (outside_lem 1 100 c.critical_percent)
          (outside_lem 1 100 c.emergency_percent)))
      (passes_last _ _ (
        refutes_or _ _ (at_least_lem c.warn_percent c.critical_percent)
          (at_least_lem c.critical_percent c.emergency_percent)))

abbrev pub IsGeoip : GeoipCfg → Type 0
IsGeoip c = (c.db_path ≢ []) × (Between 0 23 c.update_hour × (Between 0 59 c.update_minute))

pub validate_geoip_lem : (c : GeoipCfg) → Passes (validate_geoip c) (IsGeoip c)
unfolding validate_geoip
validate_geoip_lem c = passes_if _ _ _ (no_text_lem c.db_path) (
    passes_if _ _ _ (outside_lem 0 23 c.update_hour)
      (passes_last _ _ (outside_lem 0 59 c.update_minute)))
