-- ===== src/Honeypot.antt =====
-- internal/honeypot: the fake services that record credentials. This file has the constants of
-- honeypot.go.
pub mod RateLimit
pub mod CredText
pub mod Server
pub mod Protocols
pub mod Session
pub mod Lines
pub mod Telnet
pub mod Ftp
pub mod Redis
pub mod Wire
pub mod Postgres
pub mod Utf16
pub mod Mssql
pub mod Bson
pub mod Mongodb
pub mod Smb
pub mod Mysql
pub mod Memcached
pub mod Rdp
pub mod Sessions
use vps_safe_dashboard.Prelude.{ℕ, ◌*◌}

-- 30 seconds, and one minute, in nanoseconds
abbrev pub conn_timeout : ℕ
conn_timeout = 30 * 1000000000

abbrev pub max_conns : ℕ
max_conns = 200

abbrev pub ip_conn_limit : ℕ
ip_conn_limit = 10

abbrev pub ip_window : ℕ
ip_window = 60 * 1000000000

abbrev pub login_rounds_max : ℕ
login_rounds_max = 5

abbrev pub creds_per_conn_limit : ℕ
creds_per_conn_limit = 10

abbrev pub cred_text_max : ℕ
cred_text_max = 4096
