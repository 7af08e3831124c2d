-- ===== src/Conn/SsOutput.antt =====
-- internal/conn/snapshot.go: ParseSSOutput. net.ParseIP of the standard library is a parameter.
pub mod Address
use vps_safe_dashboard.Prelude.{
  ℕ, zero, suc, Bool, true, false, ◌||◌, List, [], ◌∷◌, Bytes, Option, none, some, codes, leb, ◌==◌,
  any, map, list_beq, nat_eq, if◌then◌else◌, length,
}
use vps_safe_dashboard.Text.{ℤ, pos, atoi, parse_uint, is_digit, split}
use vps_safe_dashboard.Text.Spaces.{fields, trim_space, strip_prefix}
use vps_safe_dashboard.Config.HostPort.{cut_last}
use vps_safe_dashboard.Event.{SnapConn, proto_tcp, proto_udp}
use vps_safe_dashboard.Event.Ipv4.{to4, ipv4_to_uint32}

abbrev no_return : ℕ → Bytes → Bytes
no_return c [] = if c == b'\r' then [] else c ∷ []
no_return c (d ∷ s) = c ∷ d ∷ s

unfoldable pub drop_return : Bytes → Bytes
drop_return [] = []
drop_return (c ∷ s) = no_return c (drop_return s)

abbrev line_in_front : Bytes → List Bytes → List Bytes
line_in_front [] [] = []
line_in_front l ls = l ∷ ls

-- Without an empty line at the end.
unfoldable pub scanned : List Bytes → List Bytes
scanned [] = []
scanned (l ∷ ls) = line_in_front l (scanned ls)

-- The lines of bufio.Scanner, whose buffer has 65536 bytes: a line that is as long is an error, `none`.
unfoldable pub scan_lines : Bytes → Option (List Bytes)
scan_lines content =
    let ls : List Bytes = split b'\n' content in
    if any (λ l. leb 65536 (length l)) ls then none else some (map drop_return (scanned ls))

abbrev pub any_ip : Bytes → Bytes
any_ip s = if list_beq nat_eq s (codes "*") then codes "0.0.0.0" else s

abbrev pub any_port : Bytes → Bytes
any_port s = if list_beq nat_eq s (codes "*") then codes "0" else s

-- What `\d+` takes, longest first.
unfoldable pub digits : Bytes → Bytes
digits [] = []
digits (c ∷ s) = let later = digits s in if is_digit c then c ∷ later else []

abbrev pid_behind : Option Bytes → Option Bytes → Option Bytes
pid_behind none later = later
pid_behind (some s) later = elim (digits s) [ [] ↦ later | ◌∷◌ c ds ↦ some (c ∷ ds) ]

-- The first match of `pid=(\d+)`.
unfoldable pub pid_text : Bytes → Option Bytes
pid_text [] = none
pid_text (c ∷ s) = pid_behind (strip_prefix (codes "pid=") (c ∷ s)) (pid_text s)

-- No process is `none`, which the source writes as -1.
abbrev pub pid_of : Option ℤ → Option ℕ
pid_of (some (pos n)) = some n
pid_of _ = none

unfoldable pub read_pid : Bytes → Option ℕ
read_pid line = elim (pid_text line) [ none ↦ none | some ds ↦ pid_of (atoi ds) ]

unfoldable pub proto_of : Bytes → Option ℕ
proto_of s =
    if list_beq nat_eq s (codes "tcp")
    then some proto_tcp
    else if list_beq nat_eq s (codes "udp")
    then some proto_udp
    else none

-- The address and the port, where both are there.
unfoldable pub addr_port : Option Bytes → Option ℕ → Option (ℕ × ℕ)
addr_port none port = none
addr_port (some ip) port = elim (to4 ip) [
  | none ↦ none
  | some v4 ↦ elim port [ none ↦ none | some p ↦ some (ipv4_to_uint32 ip, p) ]
]

-- The local side is the destination, the peer the source.
unfoldable pub snap_of :
    Option ℕ → Bytes → Option (ℕ × ℕ) → Option (ℕ × ℕ) → Option ℕ → Option SnapConn
snap_of (some proto) state (some (local_ip, local_port)) (some (peer_ip, peer_port)) pid =
    some record {
      proto = proto;
      src_ip = peer_ip;
      src_port = peer_port;
      dst_ip = local_ip;
      dst_port = local_port;
      state = state;
      pid = pid;
    }
snap_of _ state _ _ pid = none

module _ (parse_ip : Bytes → Option Bytes) where
  unfoldable pub parse_addr_port : Bytes → Option (ℕ × ℕ)
  parse_addr_port s = elim (cut_last b':' s) [
    | none ↦ none
    | some (ip, port) ↦ addr_port (parse_ip (any_ip ip)) (parse_uint 65536 (any_port port))
  ]

  unfoldable pub of_columns : List Bytes → Bytes → Option SnapConn
  of_columns (netid ∷ state ∷ recv ∷ send ∷ local ∷ peer ∷ users) line =
      snap_of (proto_of netid) state (parse_addr_port local) (parse_addr_port peer) (read_pid line)
  of_columns _ line = none

  unfoldable pub parse_ss_line : Bytes → Option SnapConn
  parse_ss_line line = of_columns (fields line) line

  abbrev begins_with : Bytes → Bytes → Bool
  begins_with p s = elim (strip_prefix p s) [ none ↦ false | some r ↦ true ]

  abbrev put_conn : Option SnapConn → List SnapConn → List SnapConn
  put_conn none out = out
  put_conn (some sc) out = sc ∷ out

  unfoldable pub parse_ss_lines : List Bytes → List SnapConn
  parse_ss_lines [] = []
  parse_ss_lines (l ∷ ls) =
      let line : Bytes = trim_space l in
      let out = parse_ss_lines ls in
      if list_beq nat_eq line []
        || begins_with (codes "Netid") line
        || begins_with (codes "State") line
      then out
      else put_conn (parse_ss_line line) out

  -- `none` is an error of the scanner, with which the callers drop what was read.
  unfoldable pub parse_ss_output : Bytes → Option (List SnapConn)
  parse_ss_output content = elim (scan_lines content) [
    | none ↦ none
    | some ls ↦ some (parse_ss_lines ls)
  ]
