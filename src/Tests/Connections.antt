-- ===== src/Tests/Connections.antt =====
-- internal/conn: the listener's loop, and the differences of snapshots.
use vps_safe_dashboard.Conn.SsOutput.{
  parse_ss_line, of_columns, snap_of, proto_of, parse_addr_port, addr_port, read_pid, pid_text,
  digits,
}
use vps_safe_dashboard.Text.Spaces.{fields, mark_spaces, words, strip_prefix}
use vps_safe_dashboard.Text.{atoi, parse_uint, dec_value}
use vps_safe_dashboard.Utf8.{decode_rune}
use vps_safe_dashboard.Config.HostPort.{cut_last}
use vps_safe_dashboard.Event.Ipv4.{to4, ipv4_to_uint32}
use vps_safe_dashboard.Prelude.{
  ℕ, Bytes, Option, list_beq, nat_eq, if◌then◌else◌, ◌≡◌, refl, ◌≤◌, ◌*◌, ◌+◌, ◌-◌, ◌%◌, ◌^◌, true,
  false, Bool, List, [], ◌∷◌, none, some, codes, length, min, arith,
}
use vps_safe_dashboard.Prelude.Assoc.{lookup}
use vps_safe_dashboard.Event.{SnapConn, proto_tcp}
use vps_safe_dashboard.Conn.Flows.{
  ProtoTuple, Group, ct_new, ct_destroy, Con, or_zero, conn_event_from_con,
}
use vps_safe_dashboard.Conn.Flows.Tuple.{IsIpv4, tuple, conn_event_from_con-injective}
use vps_safe_dashboard.Conn.Loop.{
  Round, running, run_loop, loop_start, second, netlink_buffer_max, record_result, after_error,
  after_wait,
}
use vps_safe_dashboard.Conn.Loop.GivesUp.{gives_up, three_fails_in_a_row, gives_up_lem}
use vps_safe_dashboard.Conn.Loop.Backoff.{backoff_lem}
use vps_safe_dashboard.Conn.Snapshots.{tuple_key, Snapshot}
use vps_safe_dashboard.Conn.Overrun.{
  Watch, Reading, check_all, check_drops, compare_drops, count_overrun, enlarge_buffer,
}
use vps_safe_dashboard.Conn.Overrun.Total.{IsCounting, last_read, check_all-IsCounting}
use vps_safe_dashboard.Conn.Snapshots.Difference.{IsTick, fallback_round_lem}

abbrev round : Bool → Round
round start_err = record {
  start_err = start_err;
  done = false;
  done_waiting = false;
  t1 = 1;
  t2 = 2;
  t3 = 3;
}

-- Two failures to start, a round that ran, and three failures.
abbrev rounds : List Round
rounds = round true ∷ round true ∷ round false ∷ round true ∷ round true ∷ round true ∷ []

gives_up_example : gives_up (run_loop rounds (loop_start 4096 none)).0 ≡ three_fails_in_a_row rounds
gives_up_example =
    gives_up_lem rounds (loop_start 4096 none)
      (
        (refl, refl),
        ((refl, refl), ((refl, refl), ((refl, refl), ((refl, refl), ((refl, refl), tt))))),
      )
      refl

abbrev few_rounds : List Round
few_rounds = round true ∷ round false ∷ []

few_rounds_run : (run_loop few_rounds (loop_start 4096 none)).0 ≡ running
unfolding run_loop record_result after_error after_wait
few_rounds_run = ground arith

backoff_example :
    ((run_loop few_rounds (loop_start 4096 none)).1.backoff
      ≡ second * 2 ^ (1 + min 4 (length few_rounds)))
    × ((run_loop few_rounds (loop_start 4096 none)).1.buf_size ≤ netlink_buffer_max)
backoff_example = backoff_lem few_rounds 4096 none (omega arith) few_rounds_run

abbrev Same : ℕ → Type 0
Same n = n ≡ n

abbrev connection : List ℕ → SnapConn
connection state = record {
  proto = 6;
  src_ip = 1;
  src_port = 22;
  dst_ip = 2;
  dst_port = 443;
  state = state;
  pid = none;
}

abbrev failed_run : ℕ
failed_run = 0

abbrev before : Snapshot
before = (tuple_key 6 1 22 2 443, connection (codes "ESTAB")) ∷ []

fallback_example :
    IsTick
      (tuple_key 6 1 22 2 443)
      failed_run
      7000000000
      (some (connection (codes "CLOSE-WAIT") ∷ []))
      before
      none
unfolding lookup
fallback_example =
    fallback_round_lem (tuple_key 6 1 22 2 443) failed_run 7000000000
      (some (connection (codes "CLOSE-WAIT") ∷ [])) before none (refl, refl, tt)

-- Three checks: the count goes from 5 to 8, cannot be read, and goes to 12.
abbrev readings : List Reading
readings =
    record { t1 = 1; t2 = 2; drops = some 8; enlarges = true }
    ∷ record { t1 = 3; t2 = 4; drops = none; enlarges = true }
    ∷ record { t1 = 5; t2 = 6; drops = some 12; enlarges = false }
    ∷ []

abbrev watch : Watch
watch = record { sys = none; buf_size = 4096; counter = some 100; last_drops = 5; first = false }

check_all-counts : (check_all readings watch).counter ≡ some 107
unfolding check_all check_drops compare_drops count_overrun enlarge_buffer
check_all-counts = refl

check_all_example :
    ((check_all readings watch).last_drops ≡ last_read 5 readings)
    × IsCounting ((100 + last_read 5 readings + 2 ^ 64 - 5) % 2 ^ 64) (check_all readings watch)
check_all_example =
    check_all-IsCounting readings 100 watch
      (record {
        begun = refl;
        small = omega arith;
        bits = omega arith;
        counter = refl;
        within = omega arith;
      })
      (omega arith, (tt, (omega arith, tt)))

abbrev client : List ℕ
client = 10 ∷ 0 ∷ 0 ∷ 1 ∷ []

abbrev server : List ℕ
server = 10 ∷ 0 ∷ 0 ∷ 2 ∷ []

-- The beginning and the end of a connection to a web server.
abbrev https : ℕ → ProtoTuple
https port = record { number = some 6; src_port = some port; dst_port = some 443 }

abbrev con : ℕ → Group → Con
con port g = record {
  origin = some (tuple client server (https port));
  info = some g;
  counter_origin = none;
  mark = none;
}

client-IsIpv4 : IsIpv4 client
client-IsIpv4 = (10, 0, 0, 1, refl, omega arith, omega arith, omega arith, omega arith)

server-IsIpv4 : IsIpv4 server
server-IsIpv4 = (10, 0, 0, 2, refl, omega arith, omega arith, omega arith, omega arith)

conn_event_example :
    (or_zero (some 6) ≡ or_zero (some 6))
    × (client ≡ client)
    × (or_zero (some 5000) ≡ or_zero (some 5000))
    × (server ≡ server)
    × (or_zero (some 443) ≡ or_zero (some 443))
unfolding conn_event_from_con
conn_event_example =
    conn_event_from_con-injective (λ s. s) 0 1000000000 (con 5000 ct_new) (con 5000 ct_destroy)
      client server client server (https 5000) (https 5000) refl refl client-IsIpv4 server-IsIpv4
      client-IsIpv4 server-IsIpv4 (λ e. absurd (omega (arith, e))) refl

-- A reader of two addresses, for net.ParseIP.
abbrev two_ips : Bytes → Option Bytes
two_ips s =
    if list_beq nat_eq s (codes "10.0.0.2")
    then some (10 ∷ 0 ∷ 0 ∷ 2 ∷ [])
    else if list_beq nat_eq s (codes "0.0.0.0")
    then some (0 ∷ 0 ∷ 0 ∷ 0 ∷ [])
    else none

parse_ss_line-listening :
    parse_ss_line two_ips (codes "tcp LISTEN 0 0 10.0.0.2:22 *:* users:((sshd,pid=12,fd=3))")
    ≡ some record {
      proto = proto_tcp;
      src_ip = 0;
      src_port = 0;
      dst_ip = 10 * 16777216 + 2;
      dst_port = 22;
      state = codes "LISTEN";
      pid = some 12;
    }
unfolding parse_ss_line of_columns snap_of proto_of parse_addr_port addr_port read_pid pid_text
    digits fields mark_spaces words decode_rune cut_last strip_prefix atoi parse_uint dec_value to4
    ipv4_to_uint32
parse_ss_line-listening = refl
