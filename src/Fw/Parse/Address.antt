-- ===== src/Fw/Parse/Address.antt =====
-- Addresses and ports that a log line yields: in range always, and read back as they are printed.
use Prim.Native.Nat.{bit_or}
use vps_safe_dashboard.Prelude.{
  ℕ, ◌+◌, ◌*◌, ◌/◌, ◌%◌, ◌^◌, ◌≤◌, ◌<◌, ◌≡◌, refl, ap, ◌∙◌, false, List, [], ◌∷◌, ◌++◌, Bytes, some,
  Option-cases, inl, inr, arith,
}
use vps_safe_dashboard.Prelude.Bits.{or_disjoint}
use vps_safe_dashboard.Text.{is_digit, itoa, split, parse_uint}
use vps_safe_dashboard.Text.Decimal.{IsDigits, itoa-IsDigits, atoi-itoa}
use vps_safe_dashboard.Text.Split.{Lacks, split_word, split-append}
use vps_safe_dashboard.Event.Ipv4.{uint32_to_ipv4}
use vps_safe_dashboard.Fw.{u16_limit, u32_limit}
use vps_safe_dashboard.Fw.Parse.{octet, add_octets, or_zero, ip_to_uint32, atou16}

octet-le : (p : Bytes) (n : ℕ) → octet p ≡ some n → n ≤ 255
unfolding octet
octet-le p n h = ground arith

octet-itoa : (n : ℕ) → n ≤ 255 → octet (itoa n) ≡ some n
unfolding octet
octet-itoa n h = ground (arith, atoi-itoa n (omega arith))

-- One more octet: the number is shifted, and the octet added.
add_octet : (v n : ℕ) → n ≤ 255 → bit_or (v * 2 ^ 8 % 2 ^ 32) n ≡ v * 256 % 4294967296 + n
add_octet v n h =
    let e : v * 2 ^ 8 % 2 ^ 32 ≡ v % 16777216 * 2 ^ 8 = omega arith in
    rw e (or_disjoint 8 (v % 16777216) n (omega arith) ∙ omega arith)

add_octets-lt :
    (ps : List Bytes) (v n : ℕ) → v < u32_limit → add_octets ps v ≡ some n → n < u32_limit
unfolding add_octets
add_octets-lt [] v n h e = ground arith
add_octets-lt (p ∷ ps) v n h e = elim (Option-cases (octet p)) [
  | inl bad ↦ absurd (ground arith)
  | inr (m, good) ↦
      add_octets-lt ps (bit_or (v * 2 ^ 8 % 2 ^ 32) m) n
        (omega (arith, add_octet v m (octet-le p m good), octet-le p m good))
        (rw (good, add_octets) at e)
]

-- Whatever the text, an address fits 32 bits.
pub ip_to_uint32-lt : (s : Bytes) → ip_to_uint32 s < u32_limit
unfolding ip_to_uint32
ip_to_uint32-lt s =
    ground (arith, add_octets-lt (split b'.' s) 0 (or_zero (add_octets (split b'.' s) 0)))

-- Whatever the text, a port fits 16 bits.
pub atou16-lt : (s : Bytes) → atou16 s < u16_limit
unfolding atou16 parse_uint
atou16-lt [] = omega arith
atou16-lt (c ∷ s) = ground arith

digits-Lacks : (d : ℕ) (s : Bytes) → is_digit d ≡ false → IsDigits s → Lacks d s
digits-Lacks d [] h k = tt
digits-Lacks d (c ∷ s) h (k, ks) = (ground arith, digits-Lacks d s h ks)

itoa-Lacks : (n : ℕ) → Lacks b'.' (itoa n)
itoa-Lacks n = digits-Lacks b'.' (itoa n) refl (itoa-IsDigits n)

split_ipv4 :
    (a b c d : ℕ)
    → split b'.' (itoa a ++ b'.' ∷ (itoa b ++ b'.' ∷ (itoa c ++ b'.' ∷ itoa d)))
      ≡ itoa a ∷ itoa b ∷ itoa c ∷ itoa d ∷ []
split_ipv4 a b c d =
    split-append b'.' (itoa a) _ (itoa-Lacks a)
    ∙ ap (◌∷◌ (itoa a)) (
        split-append b'.' (itoa b) _ (itoa-Lacks b)
        ∙ ap (◌∷◌ (itoa b)) (
            split-append b'.' (itoa c) _ (itoa-Lacks c)
            ∙ ap (◌∷◌ (itoa c)) (split_word b'.' (itoa d) (itoa-Lacks d))))

add_octets_step :
    (n v : ℕ) (ps : List Bytes)
    → n ≤ 255
    → v < 16777216
    → add_octets (itoa n ∷ ps) v ≡ add_octets ps (v * 256 + n)
unfolding add_octets
add_octets_step n v ps h k =
    rw (octet-itoa n h, add_octets) (ap (add_octets ps) (omega (arith, add_octet v n h)))

add_octets_four :
    (a b c d : ℕ)
    → a ≤ 255
    → b ≤ 255
    → c ≤ 255
    → d ≤ 255
    → add_octets (itoa a ∷ itoa b ∷ itoa c ∷ itoa d ∷ []) 0
      ≡ some ((((0 * 256 + a) * 256 + b) * 256 + c) * 256 + d)
unfolding add_octets
add_octets_four a b c d ha hb hc hd =
    add_octets_step a 0 (itoa b ∷ itoa c ∷ itoa d ∷ []) ha (omega arith)
    ∙ add_octets_step b (0 * 256 + a) (itoa c ∷ itoa d ∷ []) hb (omega arith)
    ∙ add_octets_step c ((0 * 256 + a) * 256 + b) (itoa d ∷ []) hc (omega arith)
    ∙ add_octets_step d (((0 * 256 + a) * 256 + b) * 256 + c) [] hd (omega arith)

-- An address of 32 bits is read back as it is printed.
pub ip_to_uint32-uint32_to_ipv4 : (v : ℕ) → v < u32_limit → ip_to_uint32 (uint32_to_ipv4 v) ≡ v
unfolding ip_to_uint32 uint32_to_ipv4
ip_to_uint32-uint32_to_ipv4 v h =
    rw
      (
        split_ipv4 (v / 2 ^ 24 % 256) (v / 2 ^ 16 % 256) (v / 2 ^ 8 % 256) (v % 256),
        add_octets_four (v / 2 ^ 24 % 256) (v / 2 ^ 16 % 256) (v / 2 ^ 8 % 256) (v % 256)
            (omega arith) (omega arith) (omega arith) (omega arith),
      )
      (omega arith)
