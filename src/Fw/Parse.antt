-- ===== src/Fw/Parse.antt =====
-- internal/fw/parse.go: ParseFWLine and its helpers.
pub mod Address
use Prim.Native.Nat.{bit_or}
use vps_safe_dashboard.Prelude.{
  ℕ, ◌+◌, ◌-◌, ◌*◌, ◌%◌, ◌^◌, Bool, true, false, ◌&&◌, ◌||◌, List, [], ◌∷◌, ◌++◌, Bytes, Option,
  none, some, codes, ltb, leb, ◌==◌, if◌then◌else◌, length, list_beq, nat_eq,
}
use vps_safe_dashboard.Text.{ℤ, pos, negsuc, split, parse_uint, atoi}
use vps_safe_dashboard.Text.Spaces.{fields, trim_space, strip_prefix, after_first, upper}
use vps_safe_dashboard.Event.{FirewallEvent, truncate512, proto_tcp, proto_udp, proto_icmp}
use vps_safe_dashboard.Fw.{u16_limit}

-- The octet of a part, if strconv.Atoi reads it and it is between 0 and 255.
unfoldable pub octet : Bytes → Option ℕ
octet p = elim (atoi p) [
  | none ↦ none
  | some (pos n) ↦ if ltb 255 n then none else some n
  | some (negsuc n) ↦ none
]

-- v = v<<8 | uint32(n)
unfoldable pub add_octets : List Bytes → ℕ → Option ℕ
add_octets [] v = some v
add_octets (p ∷ ps) v = elim (octet p) [
  | none ↦ none
  | some n ↦ add_octets ps (bit_or (v * 2 ^ 8 % 2 ^ 32) n)
]

abbrev pub or_zero : Option ℕ → ℕ
or_zero none = 0
or_zero (some n) = n

unfoldable pub ip_to_uint32 : Bytes → ℕ
ip_to_uint32 s =
    let parts = split b'.' s in if length parts == 4 then or_zero (add_octets parts 0) else 0

unfoldable pub atou16 : Bytes → ℕ
atou16 s = or_zero (parse_uint u16_limit s)

-- The keys of the pairs that reFWKV finds.
pub data Key : Type 0 where
  src dst proto spt dpt : Key

-- \w and \s of the regular expression
abbrev is_word : ℕ → Bool
is_word c =
    (leb b'a' c && leb c b'z')
    || (leb b'A' c && leb c b'Z')
    || (leb b'0' c && leb c b'9')
    || c == b'_'

abbrev is_blank : ℕ → Bool
is_blank c = c == 9 || c == 10 || c == 12 || c == 13 || c == 32

-- One of the keys and `=` at the start of the string, and what stands behind.
unfoldable pub key_at : Bytes → Option (Key × Bytes)
unfolding strip_prefix
key_at s = elim (strip_prefix (codes "SRC=") s) [
  | some r ↦ some (src, r)
  | none ↦ elim (strip_prefix (codes "DST=") s) [
    | some r ↦ some (dst, r)
    | none ↦ elim (strip_prefix (codes "PROTO=") s) [
      | some r ↦ some (proto, r)
      | none ↦ elim (strip_prefix (codes "SPT=") s) [
        | some r ↦ some (spt, r)
        | none ↦ elim (strip_prefix (codes "DPT=") s) [ some r ↦ some (dpt, r) | none ↦ none ]
      ]
    ]
  ]
]

-- The longest run of bytes that are not blank.
unfoldable pub value_of : Bytes → Bytes
value_of [] = []
value_of (c ∷ s) = let rest = value_of s in if is_blank c then [] else c ∷ rest

-- A pair begins at a word boundary, and its value is not empty.
unfoldable pub pair_at : Bool → Bytes → Option (Key × Bytes)
pair_at after_word s = elim (key_at s) [
  | none ↦ none
  | some (k, r) ↦ elim (value_of r) [
    | [] ↦ none
    | c ∷ v ↦ if after_word then none else some (k, c ∷ v)
  ]
]

abbrev pub key_length : Key → ℕ
key_length src = 4
key_length dst = 4
key_length proto = 6
key_length spt = 4
key_length dpt = 4

-- FindAllStringSubmatch: the pairs in order; the next one is sought behind the value. `skip` bytes
-- belong to the pair that was found last.
unfoldable pub find_pairs : ℕ → Bool → Bytes → List (Key × Bytes)
find_pairs skip after_word [] = []
find_pairs ℕ.zero after_word (c ∷ s) = elim (pair_at after_word (c ∷ s)) [
  | none ↦ find_pairs 0 (is_word c) s
  | some (k, v) ↦ (k, v) ∷ find_pairs (key_length k + length v - 1) (is_word c) s
]
find_pairs (ℕ.suc n) after_word (c ∷ s) = find_pairs n (is_word c) s

abbrev text_is : List ℕ → List ℕ → Bool
text_is = list_beq nat_eq

-- protoByName[strings.ToUpper(val)]
unfoldable pub proto_by_name : Bytes → Option ℕ
proto_by_name val =
    let name = upper val in
    if text_is name (codes "TCP")
    then some proto_tcp
    else if text_is name (codes "UDP")
    then some proto_udp
    else if text_is name (codes "ICMP")
    then some proto_icmp
    else if text_is name (codes "SCTP")
    then some 132
    else if text_is name (codes "GRE")
    then some 47
    else if text_is name (codes "ICMPV6")
    then some 58
    else none

-- The switch in the loop over the pairs: the event so far, and `hasAddr`.
unfoldable pub apply_pair : Key × Bytes → FirewallEvent × Bool → FirewallEvent × Bool
apply_pair (src, val) (ev, has_addr) = (record ev { src_ip = ip_to_uint32 val }, true)
apply_pair (dst, val) (ev, has_addr) = (record ev { dst_ip = ip_to_uint32 val }, true)
apply_pair (proto, val) (ev, has_addr) = elim (proto_by_name val) [
  | none ↦ (ev, has_addr)
  | some p ↦ (record ev { proto = p }, has_addr)
]
apply_pair (spt, val) (ev, has_addr) = (record ev { src_port = atou16 val }, has_addr)
apply_pair (dpt, val) (ev, has_addr) = (record ev { dst_port = atou16 val }, has_addr)

unfoldable pub apply_pairs : List (Key × Bytes) → FirewallEvent × Bool → FirewallEvent × Bool
apply_pairs [] st = st
apply_pairs (p ∷ ps) st = apply_pairs ps (apply_pair p st)

abbrev chain_action : List Bytes → Bytes → Bytes × Bytes
chain_action (chain ∷ action ∷ []) tag = (chain, action)
chain_action _ tag = ([], tag)

-- The event before the pairs are read. TS is filled in by the caller.
abbrev tagged : Bytes → Bytes → FirewallEvent
tagged line tag =
    let (chain, action) = chain_action (split b':' tag) tag in
    record {
      ts = 0;
      chain = chain;
      action = action;
      proto = 0;
      src_ip = 0;
      src_port = 0;
      dst_ip = 0;
      dst_port = 0;
      raw = truncate512 line;
    }

unfoldable pub parse_tagged : Bytes → List Bytes → Option FirewallEvent
parse_tagged line [] = none
parse_tagged line (tag ∷ tags) =
    let (ev, has_addr) = apply_pairs (find_pairs 0 false line) (tagged line tag, false) in
    if has_addr then some ev else none

unfoldable pub parse_fw_line : Bytes → Bytes → Option FirewallEvent
parse_fw_line line prefix = elim (after_first prefix line) [
  | none ↦ none
  | some rest ↦ parse_tagged line (fields (trim_space rest))
]
