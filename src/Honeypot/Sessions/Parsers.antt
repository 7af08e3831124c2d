-- ===== src/Honeypot/Sessions/Parsers.antt =====
-- No bytes of a client make a parser of a message panic, and each of them reaches its end.
use vps_safe_dashboard.Prelude.{Bytes}
use vps_safe_dashboard.Honeypot.Wire.Slices.{Returns}
use vps_safe_dashboard.Honeypot.Mssql.{parse_login7}
use vps_safe_dashboard.Honeypot.Smb.{parse_ntlmssp_auth}
use vps_safe_dashboard.Honeypot.Mongodb.{parse_mongo_command}
use vps_safe_dashboard.Honeypot.Mssql.Total.{parse_login7-Returns}
use vps_safe_dashboard.Honeypot.Smb.Total.{parse_ntlmssp_auth-Returns}
use vps_safe_dashboard.Honeypot.Mongodb.Total.{parse_mongo_command-Returns}

-- Of any bytes of a client: parseLogin7, parseNTLMSSPAuth and parseMongoCommand (with the documents
-- within its payloads) come to an end without an access out of range.
pub parsers_total :
    (b : Bytes)
    → Returns (parse_login7 b) × Returns (parse_ntlmssp_auth b) × Returns (parse_mongo_command b)
parsers_total b =
    (parse_login7-Returns b, parse_ntlmssp_auth-Returns b, parse_mongo_command-Returns b)
