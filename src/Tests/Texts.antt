-- ===== src/Tests/Texts.antt =====
-- Text that is cut and printed: internal/event, internal/honeypot and internal/fw.
use vps_safe_dashboard.Prelude.{ℕ, ◌≡◌, refl, List, [], ◌∷◌, codes, arith}
use vps_safe_dashboard.Text.{split, atoi, parse_uint}
use vps_safe_dashboard.Utf8.{truncate_runes}
use vps_safe_dashboard.Event.Ipv4.{uint32_to_ipv4}
use vps_safe_dashboard.Fw.Parse.{octet, add_octets, ip_to_uint32}
use vps_safe_dashboard.Fw.Parse.Address.{ip_to_uint32-uint32_to_ipv4}

-- "é", "€", a stray byte, "a"
abbrev mixed : List ℕ
mixed = 0xC3 ∷ 0xA9 ∷ 0xE2 ∷ 0x82 ∷ 0xAC ∷ 0xFF ∷ b'a' ∷ []

truncate_runes-mixed : truncate_runes 2 mixed ≡ 0xC3 ∷ 0xA9 ∷ 0xE2 ∷ 0x82 ∷ 0xAC ∷ []
unfolding truncate_runes
truncate_runes-mixed = refl

ip_to_uint32-signed : ip_to_uint32 (codes "+1.02.3.4") ≡ 16909060
unfolding ip_to_uint32 add_octets octet split atoi parse_uint
ip_to_uint32-signed = refl

printed_address_example : ip_to_uint32 (uint32_to_ipv4 3232235777) ≡ 3232235777
printed_address_example = ip_to_uint32-uint32_to_ipv4 3232235777 (omega arith)
