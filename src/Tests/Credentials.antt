-- ===== src/Tests/Credentials.antt =====
-- internal/honeypot/honeypot.go: connections and their credentials.
use vps_safe_dashboard.Prelude.{
  ◌≡◌, refl, ◌≤◌, ◌+◌, ◌%◌, ◌^◌, true, false, [], ◌∷◌, ◌++◌, Bytes, none, some, codes,
  if◌then◌else◌, arith,
}
use vps_safe_dashboard.Prelude.Assoc.{lookup, insert}
use vps_safe_dashboard.Event.{CredEvent, Chan}
use vps_safe_dashboard.Honeypot.{max_conns}
use vps_safe_dashboard.Honeypot.RateLimit.{
  allow, maybe_sweep, sweep, live_buckets, count_call, current,
}
use vps_safe_dashboard.Honeypot.Protocols.{is_valid_proto}
use vps_safe_dashboard.Honeypot.Server.{
  Server, Clock, new_server, accept_conn, begin_conn, record_cred, count_bytes, free_token,
}
use vps_safe_dashboard.Honeypot.Server.Governance.{
  World, accepted, begun, recorded, handled, freed, Reach, here, next, start, governed,
}
use vps_safe_dashboard.Honeypot.Server.Delivered.{
  IsCleanChan, Reach-IsCleanChan, queued_cred, is_queued, record_cred_lem,
}

abbrev clock : Clock
clock = record { now = 5000000000; t1 = 5000000001; t2 = 5000000002; t3 = 5000000003 }

abbrev telnet : Bytes
telnet = codes "telnet"

abbrev two_creds : Chan CredEvent
two_creds = record { capacity = 2; queue = [] }

abbrev fresh_server : Server
fresh_server = new_server (some two_creds) none

abbrev root_cred : CredEvent
root_cred = record {
  ts = 0;
  proto = telnet;
  src_ip = 0;
  username = codes "root";
  password = codes "1234";
  extra = [];
}

accept_conn-fresh : (accept_conn clock telnet 42 fresh_server).1 ≡ true
unfolding accept_conn allow maybe_sweep sweep live_buckets count_call current lookup insert
accept_conn-fresh = refl

-- One connection that has come, then begun, then recorded a credential.
abbrev accepted_one : World
accepted_one = record {
  server = (accept_conn clock telnet 42 fresh_server).0;
  waiting = 1;
  running = 0;
  leaving = 0;
  closing = 0;
}

abbrev begun_one : World
begun_one = record {
  server = begin_conn clock telnet 42 accepted_one.server;
  waiting = 0;
  running = 1;
  leaving = 0;
  closing = 0;
}

abbrev recorded_one : World
recorded_one = record begun_one { server = record_cred clock telnet 42 root_cred begun_one.server }

session : Reach (start fresh_server) recorded_one
session =
    next
      (next (next here (accepted clock telnet 42 accept_conn-fresh)) (begun clock telnet 42 0 refl))
      (recorded clock telnet 42 root_cred)

-- Its handler has returned, and its token is given back.
abbrev freed_one : World
freed_one = record recorded_one {
  server = free_token (count_bytes (some 40) recorded_one.server);
  running = 0;
  closing = 1;
}

whole_session : Reach (start fresh_server) freed_one
whole_session = next (next session (handled (some 40) 0 refl)) (freed 0 refl)

governed_example :
    (freed_one.waiting + freed_one.running + freed_one.leaving ≤ max_conns)
    × (freed_one.server.stats.active
        ≡ (freed_one.running + freed_one.leaving + freed_one.closing) % 2 ^ 64)
governed_example = governed (some two_creds) none freed_one whole_session

clean_example : IsCleanChan recorded_one.server.cred_ch
clean_example = Reach-IsCleanChan session (tt, omega arith)

record_cred_example :
    ((record_cred clock telnet 42 root_cred fresh_server).cred_ch ≡ (
      if is_queued root_cred two_creds
      then some (record two_creds {
        queue = two_creds.queue ++ queued_cred clock telnet 42 root_cred ∷ [];
      })
      else some two_creds))
    × ((record_cred clock telnet 42 root_cred fresh_server).stats.cred_events ≡ (
        if is_queued root_cred two_creds
        then (fresh_server.stats.cred_events + 1) % 2 ^ 64
        else fresh_server.stats.cred_events))
record_cred_example = record_cred_lem clock telnet 42 root_cred fresh_server two_creds refl

is_valid_proto-ssh : is_valid_proto (codes "ssh") ≡ false
unfolding is_valid_proto lookup
is_valid_proto-ssh = refl
