-- ===== src/Honeypot/Server.antt =====
-- internal/honeypot/honeypot.go: the governance of connections and the delivery of credentials.
-- `handleConn` is in parts, since the protocol handler and other connections run in between:
-- `begin_conn`, the closure `record_cred` that it gives to the handler, `count_bytes`, and the deferred
-- `free_token` and `leave_conn`.
pub mod Governance
pub mod Delivered
use vps_safe_dashboard.Prelude.{
  ℕ, ◌+◌, ◌-◌, ◌/◌, ◌%◌, ◌^◌, Bool, true, false, ◌&&◌, [], Option, none, some, Bytes, ltb,
  if◌then◌else◌,
}
use vps_safe_dashboard.Event.{
  SystemEvent, CredEvent, Chan, Source, Level, RateLimiter, new_rate_limiter, report, try_send,
}
use vps_safe_dashboard.Honeypot.{max_conns, ip_conn_limit, ip_window}
use vps_safe_dashboard.Honeypot.CredText.{valid_cred_text, truncate_cred_text}
use vps_safe_dashboard.Honeypot.RateLimit.{IpRateLimiter, new_ip_rate_limiter, allow}

-- The texts that the server reports, with what they are formatted from. None holds a credential.
pub data Message : Type 0 where
  over_rate : Bytes → ℕ → Message
  over_conns : Bytes → Message
  connected : Bytes → ℕ → Message
  cred_dropped : Message

-- The bit patterns of int64 counters.
pub record Stats : Type 0 where
  pub total_conns : ℕ
  pub active : ℕ
  pub total_bytes : ℕ
  pub rejected : ℕ
  pub cred_events : ℕ

-- n++ and n-- of an int64
abbrev pub incr64 : ℕ → ℕ
incr64 n = (n + 1) % 2 ^ 64

abbrev pub decr64 : ℕ → ℕ
decr64 n = (n + 2 ^ 64 - 1) % 2 ^ 64

-- `sem` is how many tokens the semaphore of capacity `max_conns` holds.
pub record Server : Type 0 where
  pub sem : ℕ
  pub rl : IpRateLimiter
  pub rep : RateLimiter
  pub stats : Stats
  pub sys : Option (Chan (SystemEvent Message))
  pub cred_ch : Option (Chan CredEvent)

abbrev pub new_server : Option (Chan CredEvent) → Option (Chan (SystemEvent Message)) → Server
new_server cred_ch sys = record {
  sem = 0;
  rl = new_ip_rate_limiter ip_conn_limit ip_window;
  rep = new_rate_limiter 60000000000;
  stats = record { total_conns = 0; active = 0; total_bytes = 0; rejected = 0; cred_events = 0 };
  sys = sys;
  cred_ch = cred_ch;
}

-- What time.Now() returns, in the order of the calls.
pub record Clock : Type 0 where
  pub now : ℕ
  pub t1 : ℕ
  pub t2 : ℕ
  pub t3 : ℕ

abbrev pub rep_report : Clock → Level → Message → Server → Server
rep_report k level message s =
    let (rep, sys) = report k.t1 k.t2 k.t3 Source.honeypot level message (s.rep, s.sys) in
    record s { rep = rep; sys = sys }

abbrev pub reject : Server → Server
reject s = record s { stats = record s.stats { rejected = incr64 s.stats.rejected } }

unfoldable pub accept_conn : Clock → Bytes → ℕ → Server → Server × Bool
accept_conn k proto src_ip s =
    let (rl, allowed) = allow k.now src_ip s.rl in
    let s1 : Server = record s { rl = rl } in
    if allowed
    then (if ltb s1.sem max_conns
        then (record s1 { sem = s1.sem + 1 }, true)
        else (rep_report k Level.warn (over_conns proto) (reject s1), false))
    else (rep_report k Level.info (over_rate proto src_ip) (reject s1), false)

unfoldable pub begin_conn : Clock → Bytes → ℕ → Server → Server
begin_conn k proto src_ip s = rep_report k Level.info (connected proto src_ip) (record s {
  stats = record s.stats {
    total_conns = incr64 s.stats.total_conns;
    active = incr64 s.stats.active;
  };
})

unfoldable pub emit : Clock → CredEvent → Server → Server
emit k ev s = elim s.cred_ch [
  | none ↦ rep_report k Level.warn cred_dropped s
  | some ch ↦
      let (ch', sent) = try_send ch ev in
      if sent
      then record s {
        cred_ch = some ch';
        stats = record s.stats { cred_events = incr64 s.stats.cred_events };
      }
      else rep_report k Level.warn cred_dropped s
]

-- What is stored of the texts that a handler gives.
unfoldable pub stored_cred : Clock → Bytes → ℕ → CredEvent → CredEvent
stored_cred k proto src_ip ev = record {
  ts = k.now / 1000000000;
  proto = proto;
  src_ip = src_ip;
  username = truncate_cred_text ev.username;
  password = truncate_cred_text ev.password;
  extra = truncate_cred_text ev.extra;
}

abbrev pub is_valid_cred : CredEvent → Bool
is_valid_cred ev =
    valid_cred_text ev.username && valid_cred_text ev.password && valid_cred_text ev.extra

-- The closure `rec` of handleConn.
unfoldable pub record_cred : Clock → Bytes → ℕ → CredEvent → Server → Server
record_cred k proto src_ip ev s =
    if is_valid_cred ev then emit k (stored_cred k proto src_ip ev) s else s

-- What is left behind the handler, in three parts, since other connections may come in between. The
-- bytes are counted where the handler has returned: `none` is one that panicked, or that is missing.
unfoldable pub count_bytes : Option ℕ → Server → Server
count_bytes none s = s
count_bytes (some n) s = record s {
  stats = record s.stats { total_bytes = (s.stats.total_bytes + n) % 2 ^ 64 };
}

-- The deferred function, which runs also where the handler panics: first the token is given back, and
-- the connection is closed.
unfoldable pub free_token : Server → Server
free_token s = record s { sem = s.sem - 1 }

-- Then, under the mutex, Active--.
unfoldable pub leave_conn : Server → Server
leave_conn s = record s { stats = record s.stats { active = decr64 s.stats.active } }
