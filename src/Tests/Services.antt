-- ===== src/Tests/Services.antt =====
-- Sessions with the services: internal/honeypot.
use vps_safe_dashboard.Prelude.{
  ℕ, ◌+◌, ◌≤◌, ◌≡◌, inr, refl, List, [], ◌∷◌, ◌++◌, Bytes, some, codes, length, take, All, arith,
}
use vps_safe_dashboard.Text.Spaces.{upper}
use vps_safe_dashboard.Honeypot.{creds_per_conn_limit}
use vps_safe_dashboard.Honeypot.Protocols.{Handler}
use vps_safe_dashboard.Honeypot.Session.{records, tds_clear, crlf}
use vps_safe_dashboard.Honeypot.Lines.{read_line, read_segments}
use vps_safe_dashboard.Honeypot.Ftp.{handle_ftp}
use vps_safe_dashboard.Honeypot.Ftp.Credentials.{commands, logins, handle_ftp_lem}
use vps_safe_dashboard.Honeypot.Redis.{read_resp_command}
use vps_safe_dashboard.Honeypot.Redis.RoundTrip.{print_command, read_resp_command-print}
use vps_safe_dashboard.Honeypot.Postgres.{handle_postgres}
use vps_safe_dashboard.Honeypot.Postgres.Password.{startup, password, handle_postgres_misses}
use vps_safe_dashboard.Honeypot.Utf16.Ascii.{utf16le}
use vps_safe_dashboard.Honeypot.Mssql.{
  handle_mssql, tds_packet, build_prelogin_response, parse_login7,
}
use vps_safe_dashboard.Honeypot.Mssql.Obfuscation.{obfuscated}
use vps_safe_dashboard.Honeypot.Mssql.Login.{login7_message}
use vps_safe_dashboard.Honeypot.Mssql.Captures.{handle_mssql_lem}
use vps_safe_dashboard.Honeypot.Mongodb.{parse_mongo_command}
use vps_safe_dashboard.Honeypot.Smb.{parse_ntlmssp_auth, negotiate_body}
use vps_safe_dashboard.Honeypot.Wire.{zeros, put_le32}
use vps_safe_dashboard.Honeypot.Wire.Slices.{Returns}
use vps_safe_dashboard.Honeypot.Rdp.{extract_rdp_cookie}
use vps_safe_dashboard.Honeypot.Rdp.Cookie.{IsShown, extract_rdp_cookie-IsShown}
use vps_safe_dashboard.Honeypot.Sessions.{run_handler}
use vps_safe_dashboard.Honeypot.Sessions.Limited.{length-run_handler}
use vps_safe_dashboard.Honeypot.Sessions.Parsers.{parsers_total}

-- The table of options is a multiple of four bytes long.
length_prelogin : length build_prelogin_response ≡ 28
unfolding build_prelogin_response
length_prelogin = refl

-- The body that stands before the challenge has the bytes that its offset counts, behind the header.
length_negotiate : 64 + length negotiate_body ≡ 126
length_negotiate = refl

abbrev ftp_session : Bytes
ftp_session = codes "USER root" ++ crlf ++ codes "PASS hunter2" ++ crlf ++ codes "QUIT" ++ crlf

handle_ftp_example :
    records (handle_ftp 9 ftp_session)
    ≡ take creds_per_conn_limit (logins [] (commands (1 + length ftp_session) ftp_session))
unfolding commands read_line read_segments
handle_ftp_example = handle_ftp_lem 9 ftp_session (omega arith)

abbrev auth_parts : List Bytes
auth_parts = codes "hunter2" ∷ []

read_resp_example :
    read_resp_command (print_command (codes "auth" ∷ auth_parts) (codes "more"))
    ≡ some ((upper (codes "auth"), auth_parts), codes "more")
read_resp_example =
    read_resp_command-print (codes "auth") auth_parts (codes "more") (omega arith)
      (omega arith, (omega arith, tt))

abbrev pg_params : Bytes
pg_params = codes "user" ++ 0 ∷ codes "bob" ++ 0 ∷ 0 ∷ []

postgres_misses_example :
    records (handle_postgres 2 (startup pg_params (password (5 + 7) (codes "hunter2")))) ≡ []
postgres_misses_example =
    handle_postgres_misses pg_params (codes "hunter2") 2 (omega arith) (omega arith)

abbrev sa_login : Bytes
sa_login =
    login7_message (zeros 36) (codes "PC1") (utf16le (codes "sa"))
      (obfuscated (utf16le (codes "P@ss")))

handle_mssql_example :
    records (handle_mssql 3 (tds_packet 0x12 (zeros 12) ++ (tds_packet 0x10 sa_login ++ [])))
    ≡ record { username = codes "sa"; password = codes "P@ss"; extra = tds_clear } ∷ []
handle_mssql_example =
    handle_mssql_lem 2 (zeros 12) (zeros 36) (codes "PC1") (codes "sa") (codes "P@ss") []
      (omega arith) refl (omega arith) (λ e. cc)
      ((omega arith, omega arith), ((omega arith, omega arith), tt)) (λ e. cc)
      (
        inr (omega arith, omega arith),
        (
          inr (omega arith, omega arith),
          (inr (omega arith, omega arith), (inr (omega arith, omega arith), tt)),
        ),
      )

abbrev sasl_start : Bytes
sasl_start = put_le32 20 ++ 0x10 ∷ codes "saslStart" ++ 0 ∷ 1 ∷ 0 ∷ 0 ∷ 0 ∷ 0 ∷ []

parsers_example :
    Returns (parse_login7 sasl_start)
    × Returns (parse_ntlmssp_auth sasl_start)
    × Returns (parse_mongo_command sasl_start)
parsers_example = parsers_total sasl_start

abbrev cookie_line : Bytes
cookie_line = codes "Cookie: mstshash=root" ++ crlf

extract_cookie_example :
    All IsShown (extract_rdp_cookie cookie_line) × (length (extract_rdp_cookie cookie_line) ≤ 128)
extract_cookie_example = extract_rdp_cookie-IsShown cookie_line

run_handler_example :
    length (records (run_handler Handler.handle_ftp 9 ftp_session)) ≤ creds_per_conn_limit
run_handler_example = length-run_handler Handler.handle_ftp 9 ftp_session

abbrev Same : ℕ → ℕ → Type 0
Same m n = m ≡ n
