-- ===== src/Config/Validate/Sound.antt =====
-- What a configuration that Validate accepts is like.
use vps_safe_dashboard.Prelude.{
  ℕ, ◌≡◌, refl, ◌≢◌, ◌↔◌, ◌⊎◌, inl, inr, Bool, true, false, ◌&&◌, not, List, [], ◌∷◌, Bytes, Option,
  none, some, codes, All, arith, if◌then◌else◌, Option-cases,
}
use vps_safe_dashboard.Prelude.Assoc.{Assoc}
use vps_safe_dashboard.Text.{ℤ, atoi}
use vps_safe_dashboard.Honeypot.Protocols.{is_valid_proto}
use vps_safe_dashboard.Config.{FwCfg, HoneypotCfg, Config}
use vps_safe_dashboard.Config.HostPort.{split_host_port}
use vps_safe_dashboard.Config.Validate.{
  ConfigError, is_empty_map, bad_port_text, try_check, bad_port, validate_fw, validate_honeypot,
  validate_listen, validate_listen_addr, validate_cidrs, validate_exclude_ips, validate,
}
use vps_safe_dashboard.Config.Validate.Checks.{
  AtLeast, Between, Refutes, Passes, below_lem, outside_lem, no_text_lem, is_text_lem, refutes_and,
  refutes_not, passes_if, passes_last, passes_try, passes_regroup,
}
use vps_safe_dashboard.Config.Validate.Sections.{
  IsCollect, validate_collect_lem, IsSs, validate_ss_lem, IsConntrack, validate_conntrack_lem,
  IsSsh, validate_ssh_lem, IsF2b, validate_f2b_lem, IsDb, validate_db_lem, IsArchive,
  validate_archive_lem, IsWeb, validate_web_lem, IsDisk, validate_disk_lem, IsGeoip,
  validate_geoip_lem,
}

abbrev pub IsPort : Bytes → Type 0
IsPort port = (n : ℤ) × ((atoi port ≡ some n) × Between 1 65535 n)

-- An address is empty, which turns the protocol off, or has a port.
abbrev pub IsListenAddr : Bytes → Type 0
IsListenAddr addr =
    (addr ≡ []) ⊎ ((port : Bytes) × ((split_host_port addr ≡ some port) × IsPort port))

port_lem : (port : Bytes) → Refutes (bad_port_text port) (IsPort port)
port_lem port = (
  λ k. elim (Option-cases (atoi port)) [
    | inl e ↦ cc
    | inr (n, e) ↦ (n, (e, (outside_lem 1 65535 n).0 cc))
  ],
  λ (n, q). rw (bad_port_text, q.0) ((outside_lem 1 65535 n).1 q.1),
)

addr_lem : (proto addr : Bytes) → Passes (validate_listen_addr proto addr) (IsListenAddr addr)
unfolding validate_listen_addr
addr_lem proto [] = (λ h. inl refl, λ h. refl)
addr_lem proto (c ∷ addr) = (
  λ h. elim (Option-cases (split_host_port (c ∷ addr))) [
    | inl e ↦ cc
    | inr (port, e) ↦
        inr (port, (e, (passes_last (bad_port_text port) (bad_port proto) (port_lem port)).0 cc))
  ],
  λ h. elim h [
    | inl p ↦ cc
    | inr (port, q) ↦
        rw (validate_listen_addr, q.0)
          ((passes_last (bad_port_text port) (bad_port proto) (port_lem port)).1 q.1)
  ],
)

abbrev pub IsListen : (Bytes × Bytes) → Type 0
IsListen (proto, addr) = (is_valid_proto proto ≡ true) × IsListenAddr addr

true_iff : (b : Bool) → (b ≡ true) ↔ (b ≡ true)
true_iff b = (λ h. h, λ h. h)

listen_lem : (m : Assoc Bytes Bytes) → Passes (validate_listen m) (All IsListen m)
unfolding validate_listen
listen_lem [] = (λ h. tt, λ h. refl)
listen_lem ((proto, addr) ∷ m) = passes_regroup _ (
    passes_if _ _ _ (refutes_not (is_valid_proto proto) (true_iff (is_valid_proto proto)))
      (passes_try _ _ (addr_lem proto addr) (listen_lem m)))

skipped :
    (on : Bool) (m : Assoc Bytes Bytes)
    → Passes (if not on && is_empty_map m then none else validate_listen m) (All IsListen m)
skipped true m = listen_lem m
skipped false [] = (λ h. tt, λ h. refl)
skipped false (e ∷ m) = listen_lem (e ∷ m)

only_try {ℓ} : {P : Type ℓ} (m : Option ConfigError) → Passes m P → Passes (try_check m none) P
only_try none f = f
only_try (some e) f = f

-- Known protocols with addresses; a map that is empty passes as well.
validate_honeypot_lem : (c : HoneypotCfg) → Passes (validate_honeypot c) (All IsListen c.listen)
unfolding validate_honeypot
validate_honeypot_lem c = skipped c.enabled c.listen

module _ (cidr_bits : Bytes → Option ℕ) (is_ipv4 : Bytes → Bool) where
  cidrs_lem :
      (ss : List Bytes)
      → Passes (validate_cidrs cidr_bits is_ipv4 ss) (All (λ s. cidr_bits s ≡ some 32) ss)
  unfolding validate_cidrs
  cidrs_lem [] = (λ h. tt, λ h. refl)
  cidrs_lem (s ∷ ss) = ground (arith, cidrs_lem ss)

  ips_lem :
      (ss : List Bytes)
      → Passes (validate_exclude_ips cidr_bits is_ipv4 ss) (All (λ s. is_ipv4 s ≡ true) ss)
  unfolding validate_exclude_ips
  ips_lem [] = (λ h. tt, λ h. refl)
  ips_lem (s ∷ ss) = passes_if _ _ _ (refutes_not (is_ipv4 s) (true_iff (is_ipv4 s))) (ips_lem ss)

  abbrev pub IsFw : FwCfg → Type 0
  IsFw c =
      ((c.source ≡ codes "journald-kernel") ⊎ (c.source ≡ codes "kmsg"))
      × ((c.prefix ≢ [])
          × (All (λ s. cidr_bits s ≡ some 32) c.internal_cidrs
              × (All (λ s. is_ipv4 s ≡ true) c.exclude_ips
                  × (AtLeast 1 c.ssh_learn_window_days × AtLeast 1 c.ssh_learn_interval_min))))

  validate_fw_lem : (c : FwCfg) → Passes (validate_fw cidr_bits is_ipv4 c) (IsFw c)
  unfolding validate_fw
  validate_fw_lem c =
      passes_if _ _ _
        (refutes_and _ _ (is_text_lem c.source (codes "journald-kernel"))
          (is_text_lem c.source (codes "kmsg")))
        (passes_if _ _ _ (no_text_lem c.prefix) (
          passes_try _ _ (cidrs_lem c.internal_cidrs) (
            passes_try _ _ (ips_lem c.exclude_ips) (
              passes_if _ _ _ (below_lem 1 c.ssh_learn_window_days)
                (passes_last _ _ (below_lem 1 c.ssh_learn_interval_min))))))

  abbrev pub IsValid : Config → Type 0
  IsValid c =
      IsCollect c.collect
      × (IsSs c.ss
          × (IsConntrack c.conntrack
              × (IsSsh c.ssh
                  × (IsFw c.fw
                      × (IsF2b c.f2b
                          × (IsDb c.db
                              × (IsArchive c.archive
                                  × (IsWeb c.web
                                      × (IsDisk c.disk
                                          × (IsGeoip c.geoip
                                              × All IsListen c.honeypot.listen))))))))))

  -- Validate accepts a configuration exactly if all sections are valid: the intervals and limits are
  -- within their bounds, the texts that must be there are, the sources and the mode are known names, the
  -- time of the archive is HH:MM of a day, the origin begins with http:// or https://, the thresholds of
  -- the disk increase, the networks and excluded addresses are of IPv4, and each protocol of the honeypot
  -- is known with an empty address or one whose port is from 1 to 65535.
  pub validate_lem : (c : Config) → (validate cidr_bits is_ipv4 c ≡ none) ↔ IsValid c
  unfolding validate
  validate_lem c = passes_try _ _ (validate_collect_lem c.collect) (
      passes_try _ _ (validate_ss_lem c.ss) (
        passes_try _ _ (validate_conntrack_lem c.conntrack) (
          passes_try _ _ (validate_ssh_lem c.ssh) (
            passes_try _ _ (validate_fw_lem c.fw) (
              passes_try _ _ (validate_f2b_lem c.f2b) (
                passes_try _ _ (validate_db_lem c.db) (
                  passes_try _ _ (validate_archive_lem c.archive) (
                    passes_try _ _ (validate_web_lem c.web) (
                      passes_try _ _ (validate_disk_lem c.disk) (
                        passes_try _ _ (validate_geoip_lem c.geoip)
                          (only_try _ (validate_honeypot_lem c.honeypot))))))))))))
