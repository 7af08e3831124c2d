-- ===== src/Honeypot/Sessions.antt =====
-- internal/honeypot/honeypot.go: protoHandlers, with the handlers for their names.
pub mod Single
pub mod Remote
pub mod Limited
pub mod Parsers
pub mod Ends
use vps_safe_dashboard.Prelude.{ℕ, List, Bytes}
use vps_safe_dashboard.Honeypot.Protocols.{Handler}
use vps_safe_dashboard.Honeypot.Session.{Action}
use vps_safe_dashboard.Honeypot.Telnet
use vps_safe_dashboard.Honeypot.Ftp
use vps_safe_dashboard.Honeypot.Redis
use vps_safe_dashboard.Honeypot.Postgres
use vps_safe_dashboard.Honeypot.Mysql
use vps_safe_dashboard.Honeypot.Mongodb
use vps_safe_dashboard.Honeypot.Mssql
use vps_safe_dashboard.Honeypot.Smb
use vps_safe_dashboard.Honeypot.Rdp
use vps_safe_dashboard.Honeypot.Memcached

-- A handler run on a connection.
unfoldable pub run_handler : Handler → ℕ → Bytes → List Action
run_handler Handler.handle_telnet w input = Telnet.handle_telnet w input
run_handler Handler.handle_ftp w input = Ftp.handle_ftp w input
run_handler Handler.handle_redis w input = Redis.handle_redis w input
run_handler Handler.handle_postgres w input = Postgres.handle_postgres w input
run_handler Handler.handle_mysql w input = Mysql.handle_mysql w input
run_handler Handler.handle_mongodb w input = Mongodb.handle_mongodb w input
run_handler Handler.handle_mssql w input = Mssql.handle_mssql w input
run_handler Handler.handle_smb w input = Smb.handle_smb w input
run_handler Handler.handle_rdp w input = Rdp.handle_rdp w input
run_handler Handler.handle_memcached w input = Memcached.handle_memcached w input
