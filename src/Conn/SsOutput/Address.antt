-- ===== src/Conn/SsOutput/Address.antt =====
-- An address with its port is read back.
use vps_safe_dashboard.Prelude.{
  ℕ, ◌<◌, ◌≡◌, refl, true, false, [], ◌∷◌, ◌++◌, Bytes, Option, none, some, codes, list_beq, nat_eq,
  ◌==◌, arith,
}
use vps_safe_dashboard.Text.{itoa, is_digit}
use vps_safe_dashboard.Text.Decimal.{IsDigits, itoa-IsDigits, parse_uint-itoa}
use vps_safe_dashboard.Config.HostPort.{cut_last}
use vps_safe_dashboard.Event.Ipv4.{to4, ipv4_to_uint32}
use vps_safe_dashboard.Conn.SsOutput.{any_port, addr_port, parse_addr_port}

not_colon : (c : ℕ) → is_digit c ≡ true → (c == b':') ≡ false
not_colon c h = ground arith

not_star : (c : ℕ) → is_digit c ≡ true → (c == b'*') ≡ false
not_star c h = ground arith

cut_last-digits : (s : Bytes) → IsDigits s → cut_last b':' s ≡ none
unfolding cut_last
cut_last-digits [] h = refl
cut_last-digits (c ∷ s) h = rw (cut_last-digits s h.1, not_colon c h.0) refl

cut_last-append : (x s : Bytes) → IsDigits s → cut_last b':' (x ++ b':' ∷ s) ≡ some (x, s)
unfolding cut_last
cut_last-append [] s h = rw (cut_last-digits s h) refl
cut_last-append (c ∷ x) s h = rw (cut_last-append x s h) refl

digits-any_port : (s : Bytes) → IsDigits s → any_port s ≡ s
digits-any_port [] h = refl
digits-any_port (c ∷ s) h = rw (not_star c h.0) refl

addr_port-some :
    (ip v4 : Bytes) (port : ℕ)
    → to4 ip ≡ some v4
    → addr_port (some ip) (some port) ≡ some (ipv4_to_uint32 ip, port)
unfolding addr_port
addr_port-some ip v4 port e = rw (addr_port, e) refl

-- Of an address that net.ParseIP reads as one of IPv4, and is not the star.
pub parse_addr_port-itoa :
    (parse_ip : Bytes → Option Bytes) (addr ip v4 : Bytes) (port : ℕ)
    → parse_ip addr ≡ some ip
    → to4 ip ≡ some v4
    → list_beq nat_eq addr (codes "*") ≡ false
    → port < 65536
    → parse_addr_port parse_ip (addr ++ b':' ∷ itoa port) ≡ some (ipv4_to_uint32 ip, port)
unfolding parse_addr_port
parse_addr_port-itoa parse_ip addr ip v4 port e e4 h k =
    rw
      (
        parse_addr_port,
        cut_last-append addr (itoa port) (itoa-IsDigits port),
        h,
        e,
        digits-any_port (itoa port) (itoa-IsDigits port),
        parse_uint-itoa 65536 port k,
      )
      (addr_port-some ip v4 port e4)
