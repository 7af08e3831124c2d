-- ===== src/Fw/Compile/Accepted.antt =====
-- What Validate accepts can be compiled.
use vps_safe_dashboard.Prelude.{
  ℕ, ◌≡◌, refl, Bool, true, false, List, [], ◌∷◌, Bytes, Option, none, some, All, length, arith,
  Option-cases, inl, inr,
}
use vps_safe_dashboard.Text.{map_option}
use vps_safe_dashboard.Config.{Config}
use vps_safe_dashboard.Config.Validate.{validate}
use vps_safe_dashboard.Config.Validate.Sound.{validate_lem}
use vps_safe_dashboard.Fw.Filter.{IpNet}
use vps_safe_dashboard.Fw.Compile.{
  default_internal_cidrs, or_default, parse_nets, parse_cidrs, four_bytes, parse_exclude_ips,
}

abbrev pub is_there {ℓ} : {A : Type ℓ} → Option A → Bool
is_there none = false
is_there (some a) = true

module _ (parse_cidr : Bytes → Option IpNet) (parse_ip : Bytes → Option Bytes) where
  -- What Validate asks of the same functions.
  abbrev pub cidr_bits : Bytes → Option ℕ
  cidr_bits s = map_option (λ n. n.bits) (parse_cidr s)

  abbrev pub is_ipv4 : Bytes → Bool
  is_ipv4 s = is_there (four_bytes parse_cidr parse_ip (parse_ip s))

  -- A network for each text, all of IPv4.
  abbrev pub IsCompiled : List Bytes → Option (List IpNet) → Type 0
  IsCompiled ss o =
      (nets : List IpNet) × (o ≡ some nets)
      × (length nets ≡ length ss)
      × All (λ n. n.bits ≡ 32) nets

  abbrev pub IsListed : List Bytes → Option (List Bytes) → Type 0
  IsListed ss o = (ips : List Bytes) × (o ≡ some ips) × (length ips ≡ length ss)

  parse_nets-IsCompiled :
      (ss : List Bytes)
      → All (λ s. cidr_bits s ≡ some 32) ss
      → IsCompiled ss (parse_nets parse_cidr parse_ip ss)
  unfolding parse_nets
  parse_nets-IsCompiled [] h = ([], refl, refl, tt)
  parse_nets-IsCompiled (s ∷ ss) h = elim (Option-cases (parse_cidr s)) [
    | inl e ↦ absurd cc
    | inr (n, e) ↦
        let (nets, p, q, all) = parse_nets-IsCompiled ss h.1 in
        (n ∷ nets, rw (parse_nets, e, p) refl, omega (arith, q), (cc, all))
  ]

  parse_exclude_ips-IsListed :
      (ss : List Bytes)
      → All (λ s. is_ipv4 s ≡ true) ss
      → IsListed ss (parse_exclude_ips parse_cidr parse_ip ss)
  unfolding parse_exclude_ips
  parse_exclude_ips-IsListed [] h = ([], refl, refl)
  parse_exclude_ips-IsListed (s ∷ ss) h =
      elim (Option-cases (four_bytes parse_cidr parse_ip (parse_ip s))) [
        | inl e ↦ absurd cc
        | inr (ip, e) ↦
            let (ips, p, q) = parse_exclude_ips-IsListed ss h.1 in
            (ip ∷ ips, rw (parse_exclude_ips, e, p) refl, omega (arith, q))
      ]

  listed :
      (ss : List Bytes)
      → All (λ s. cidr_bits s ≡ some 32) default_internal_cidrs
      → All (λ s. cidr_bits s ≡ some 32) ss
      → All (λ s. cidr_bits s ≡ some 32) (or_default ss)
  listed [] d h = d
  listed (s ∷ ss) d h = h

  -- Where the built-in networks are of IPv4: of a configuration that Validate accepts, ParseCIDRs and
  -- ParseExcludeIPs succeed, with a network of IPv4 for each text of the list, or of the built-in list
  -- where it is empty, and an address for each excluded one.
  pub parse_cidrs-validate :
      (c : Config)
      → All (λ s. cidr_bits s ≡ some 32) default_internal_cidrs
      → validate cidr_bits is_ipv4 c ≡ none
      → IsCompiled
          (or_default c.fw.internal_cidrs)
          (parse_cidrs parse_cidr parse_ip c.fw.internal_cidrs)
        × IsListed c.fw.exclude_ips (parse_exclude_ips parse_cidr parse_ip c.fw.exclude_ips)
  unfolding parse_cidrs
  parse_cidrs-validate c d h =
      let fw = ((validate_lem cidr_bits is_ipv4 c).0 h).1.1.1.1.0 in
      (
        parse_nets-IsCompiled (or_default c.fw.internal_cidrs)
            (listed c.fw.internal_cidrs d fw.1.1.0),
        parse_exclude_ips-IsListed c.fw.exclude_ips fw.1.1.1.0,
      )
