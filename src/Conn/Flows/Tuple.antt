-- ===== src/Conn/Flows/Tuple.antt =====
-- The five parts of an event tell flows apart.
use vps_safe_dashboard.Prelude.{
  ℕ, ◌+◌, ◌*◌, ◌<◌, ◌≡◌, ◌≢◌, refl, sym, ap, ◌∙◌, [], ◌∷◌, Bytes, Option, none, some, arith,
}
use vps_safe_dashboard.Text.{map_option}
use vps_safe_dashboard.Event.{ConnEvent, proto_icmp}
use vps_safe_dashboard.Event.Ipv4.{to4, ipv4_to_uint32, ipv4_to_uint32_four}
use vps_safe_dashboard.Conn.Flows.{
  Con, IpTuple, ProtoTuple, or_zero, unless_icmp, conn_event_from_con,
}

-- An address of four bytes.
abbrev pub IsIpv4 : Bytes → Type 0
IsIpv4 s =
    (a : ℕ) × (b : ℕ) × (c : ℕ) × (d : ℕ) × (s ≡ a ∷ b ∷ c ∷ d ∷ [])
    × (a < 256)
    × (b < 256)
    × (c < 256)
    × (d < 256)

ipv4_to_uint32-injective :
    (s t : Bytes) → IsIpv4 s → IsIpv4 t → ipv4_to_uint32 s ≡ ipv4_to_uint32 t → s ≡ t
ipv4_to_uint32-injective s t (a, b, c, d, p, ha, hb, hc, hd) (a', b', c', d', q, ka, kb, kc, kd) e =
    p ∙ four ∙ sym q
  where
    number : ((a * 256 + b) * 256 + c) * 256 + d ≡ ((a' * 256 + b') * 256 + c') * 256 + d'
    number =
        sym (ipv4_to_uint32_four a b c d ha hb hc hd)
        ∙ ap ipv4_to_uint32 (sym p)
        ∙ e
        ∙ ap ipv4_to_uint32 q
        ∙ ipv4_to_uint32_four a' b' c' d' ka kb kc kd

    four : a ∷ b ∷ c ∷ d ∷ [] ≡ a' ∷ b' ∷ c' ∷ d' ∷ []
    four =
        let p1 : a ≡ a' = omega (arith, number) in
        let p2 : b ≡ b' = omega (arith, number) in
        let p3 : c ≡ c' = omega (arith, number) in
        let p4 : d ≡ d' = omega (arith, number) in rw (p1, p2, p3, p4) refl

-- The protocol, the addresses and the ports of an event.
abbrev pub Flow : Type 0
Flow = ℕ × ℕ × ℕ × ℕ × ℕ

abbrev pub flow_of : ConnEvent → Flow
flow_of ev = (ev.proto, ev.src_ip, ev.src_port, ev.dst_ip, ev.dst_port)

abbrev pub tuple : Bytes → Bytes → ProtoTuple → IpTuple
tuple src dst p = record { src = some src; dst = some dst; proto = some p }

to4_quad : (s : Bytes) → IsIpv4 s → to4 s ≡ some s
unfolding to4
to4_quad s (a, b, c, d, p, ha, hb, hc, hd) = rw p refl

not_icmp : (m : ℕ) (o : Option ℕ) → m ≢ proto_icmp → unless_icmp m o ≡ or_zero o
not_icmp m none n = ground arith
not_icmp m (some k) n = ground arith

abbrev from_some : Option Flow → Flow
from_some none = (0, 0, 0, 0, 0)
from_some (some f) = f

module _ (ip_text : Bytes → Bytes) where
  abbrev flow : ProtoTuple → Bytes → Bytes → Flow
  flow p src dst = (
    or_zero p.number,
    ipv4_to_uint32 src,
    unless_icmp (or_zero p.number) p.src_port,
    ipv4_to_uint32 dst,
    unless_icmp (or_zero p.number) p.dst_port,
  )

  flow_quad :
      (now : ℕ) (c : Con) (src dst : Bytes) (p : ProtoTuple)
      → c.origin ≡ some (tuple src dst p)
      → IsIpv4 src
      → IsIpv4 dst
      → map_option flow_of (conn_event_from_con ip_text now c) ≡ some (flow p src dst)
  unfolding conn_event_from_con
  flow_quad now c src dst p e hs hd = rw (e, to4_quad src hs, to4_quad dst hd) refl

  -- Of connections between addresses of four bytes, one of them not of ICMP: two are recorded with the
  -- same protocol, addresses and ports only if they have the same protocol, addresses and ports,
  -- whatever the kinds of event, counters and marks, and whenever they are recorded.
  pub conn_event_from_con-injective :
      (now later : ℕ) (c d : Con) (src dst src' dst' : Bytes) (p q : ProtoTuple)
      → c.origin ≡ some (tuple src dst p)
      → d.origin ≡ some (tuple src' dst' q)
      → IsIpv4 src
      → IsIpv4 dst
      → IsIpv4 src'
      → IsIpv4 dst'
      → or_zero p.number ≢ proto_icmp
      → map_option flow_of (conn_event_from_con ip_text now c)
        ≡ map_option flow_of (conn_event_from_con ip_text later d)
      → (or_zero p.number ≡ or_zero q.number)
        × (src ≡ src')
        × (or_zero p.src_port ≡ or_zero q.src_port)
        × (dst ≡ dst')
        × (or_zero p.dst_port ≡ or_zero q.dst_port)
  conn_event_from_con-injective now later c d src dst src' dst' p q e e' hs hd hs' hd' n same =
      let flows : flow p src dst ≡ flow q src' dst' = ap from_some (
        sym (flow_quad now c src dst p e hs hd)
        ∙ same
        ∙ flow_quad later d src' dst' q e' hs' hd') in
      let protos : or_zero p.number ≡ or_zero q.number = ap (λ f. f.0) flows in
      let m : or_zero q.number ≢ proto_icmp = λ h. n (protos ∙ h) in
      (
        protos,
        ipv4_to_uint32-injective src src' hs hs' (ap (λ f. f.1) flows),
        sym (not_icmp _ p.src_port n) ∙ ap (λ f. f.2) flows ∙ not_icmp _ q.src_port m,
        ipv4_to_uint32-injective dst dst' hd hd' (ap (λ f. f.3) flows),
        sym (not_icmp _ p.dst_port n) ∙ ap (λ f. f.4) flows ∙ not_icmp _ q.dst_port m,
      )
