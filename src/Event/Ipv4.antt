-- ===== src/Event/Ipv4.antt =====
-- internal/event/event.go: IPv4ToUint32 and Uint32ToIPv4. A net.IP is the list of its bytes.
use Prim.Native.Nat.{bit_or}
use vps_safe_dashboard.Prelude.{
  ℕ, ◌+◌, ◌*◌, ◌/◌, ◌%◌, ◌^◌, ◌<◌, ◌≡◌, Bool, ◌&&◌, [], ◌∷◌, ◌++◌, Bytes, Option, none, some, ◌==◌,
  if◌then◌else◌, length, all, take, drop, get_elem?, arith,
}
use vps_safe_dashboard.Prelude.Bits.{or_disjoint}
use vps_safe_dashboard.Text.{itoa}

abbrev byte_is : Bytes → ℕ → ℕ → Bool
byte_is s i v = elim (get_elem? s i) [ none ↦ Bool.false | some b ↦ b == v ]

-- net.IP.To4: the four bytes of an IPv4 address, also where it is written as IPv6.
unfoldable pub to4 : Bytes → Option Bytes
to4 ip =
    if length ip == 4
    then some ip
    else if length ip == 16
        && all (λ b. b == 0) (take 10 ip)
        && byte_is ip 10 0xFF
        && byte_is ip 11 0xFF
    then some (drop 12 ip)
    else none

-- uint32(b) << k
abbrev shl32 : ℕ → ℕ → ℕ
shl32 b k = b * 2 ^ k % 2 ^ 32

pack : Bytes → ℕ
pack (a ∷ b ∷ c ∷ d ∷ s) = bit_or (bit_or (bit_or (shl32 a 24) (shl32 b 16)) (shl32 c 8)) d
pack _ = 0

unfoldable pub ipv4_to_uint32 : Bytes → ℕ
unfolding to4 pack
ipv4_to_uint32 ip = elim (to4 ip) [ none ↦ 0 | some v4 ↦ pack v4 ]

unfoldable pub uint32_to_ipv4 : ℕ → Bytes
uint32_to_ipv4 v =
    itoa (v / 2 ^ 24 % 256)
    ++ b'.' ∷ (itoa (v / 2 ^ 16 % 256) ++ b'.' ∷ (itoa (v / 2 ^ 8 % 256) ++ b'.' ∷ itoa (v % 256)))

or_sum : (k x y z : ℕ) → z ≡ x * 2 ^ k → y < 2 ^ k → bit_or z y ≡ z + y
or_sum k x y z e h = rw e (or_disjoint k x y h)

pack_four :
    (a b c d : ℕ)
    → a < 256
    → b < 256
    → c < 256
    → d < 256
    → pack (a ∷ b ∷ c ∷ d ∷ []) ≡ ((a * 256 + b) * 256 + c) * 256 + d
unfolding pack
pack_four a b c d ha hb hc hd =
    rw
      (
        or_sum 24 a (shl32 b 16) (shl32 a 24) (omega arith) (omega arith),
        or_sum 16 (a * 256 + b) (shl32 c 8) (shl32 a 24 + shl32 b 16) (omega arith) (omega arith),
        or_sum 8 ((a * 256 + b) * 256 + c) d (shl32 a 24 + shl32 b 16 + shl32 c 8) (omega arith)
            (omega arith),
      )
      (omega arith)

-- The four bytes of an address are the digits of its number in base 256.
pub ipv4_to_uint32_four :
    (a b c d : ℕ)
    → a < 256
    → b < 256
    → c < 256
    → d < 256
    → ipv4_to_uint32 (a ∷ b ∷ c ∷ d ∷ []) ≡ ((a * 256 + b) * 256 + c) * 256 + d
unfolding ipv4_to_uint32
ipv4_to_uint32_four a b c d ha hb hc hd = pack_four a b c d ha hb hc hd
