-- ===== src/Honeypot/Protocols.antt =====
-- internal/honeypot/honeypot.go: the tables of the protocols. The values of `proto_handlers` are the
-- names of the handlers.
pub mod Tables
use vps_safe_dashboard.Prelude.{
  Bool, true, false, [], ◌∷◌, Option, none, some, Bytes, codes, bytes_eq,
}
use vps_safe_dashboard.Prelude.Assoc.{Assoc, lookup}

pub data Handler : Type 0 where
  handle_telnet handle_ftp handle_redis handle_postgres handle_mysql : Handler
  handle_mongodb handle_mssql handle_smb handle_rdp handle_memcached : Handler

pub data CaptureKind : Type 0 where
  plaintext hash no_auth : CaptureKind

abbrev pub proto_handlers : Assoc Bytes Handler
proto_handlers =
    (codes "telnet", handle_telnet)
    ∷ (codes "ftp", handle_ftp)
    ∷ (codes "redis", handle_redis)
    ∷ (codes "postgres", handle_postgres)
    ∷ (codes "mysql", handle_mysql)
    ∷ (codes "mongodb", handle_mongodb)
    ∷ (codes "mssql", handle_mssql)
    ∷ (codes "smb", handle_smb)
    ∷ (codes "rdp", handle_rdp)
    ∷ (codes "memcached", handle_memcached)
    ∷ []

abbrev pub proto_kinds : Assoc Bytes CaptureKind
proto_kinds =
    (codes "telnet", plaintext)
    ∷ (codes "ftp", plaintext)
    ∷ (codes "redis", plaintext)
    ∷ (codes "postgres", plaintext)
    ∷ (codes "mssql", plaintext)
    ∷ (codes "mysql", hash)
    ∷ (codes "mongodb", hash)
    ∷ (codes "smb", hash)
    ∷ (codes "rdp", no_auth)
    ∷ (codes "memcached", no_auth)
    ∷ []

unfoldable pub kind_of : Bytes → Option CaptureKind
kind_of p = lookup p proto_kinds

unfoldable pub is_valid_proto : Bytes → Bool
is_valid_proto p = elim (lookup p proto_kinds) [ none ↦ false | some k ↦ true ]

abbrev pub default_listen : Assoc Bytes Bytes
default_listen =
    (codes "mysql", codes "0.0.0.0:3306")
    ∷ (codes "redis", codes "0.0.0.0:6379")
    ∷ (codes "memcached", codes "0.0.0.0:11211")
    ∷ (codes "mssql", codes "0.0.0.0:1433")
    ∷ (codes "mongodb", codes "0.0.0.0:27017")
    ∷ (codes "postgres", codes "0.0.0.0:5432")
    ∷ (codes "rdp", codes "0.0.0.0:3389")
    ∷ (codes "smb", codes "0.0.0.0:445")
    ∷ (codes "telnet", codes "0.0.0.0:23")
    ∷ (codes "ftp", codes "0.0.0.0:21")
    ∷ []
