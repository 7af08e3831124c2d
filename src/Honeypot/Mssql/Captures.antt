-- ===== src/Honeypot/Mssql/Captures.antt =====
-- A login is recorded in clear.
use vps_safe_dashboard.Prelude.{
  ℕ, suc, ◌+◌, ◌-◌, ◌*◌, ◌<◌, ◌≡◌, ◌≢◌, refl, ap, ◌∙◌, false, ◌||◌, [], ◌∷◌, ◌++◌, Bytes, some, ltb,
  length, length-append, All, arith,
}
use vps_safe_dashboard.Honeypot.Session.{tds_clear, records, reply}
use vps_safe_dashboard.Honeypot.Session.Reads.{records-reply_ignored, read_full-append}
use vps_safe_dashboard.Honeypot.Wire.RoundTrip.{be16-put_be16}
use vps_safe_dashboard.Honeypot.Utf16.Ascii.{utf16le, length-utf16le, IsAscii}
use vps_safe_dashboard.Honeypot.Mssql.Obfuscation.{
  obfuscated, IsPrintable, deobfuscate-obfuscated, length-map,
}
use vps_safe_dashboard.Honeypot.Mssql.Login.{login7_message, table, parse_login7-message}
use vps_safe_dashboard.Honeypot.Mssql.{
  tds_payload, read_tds_packet, tds_packet, tds_captured, tds_credential, login7,
  login_failed_token, parse_login7, tds_message, mssql_loop, handle_mssql,
}

whole_payload :
    (typ : ℕ) (payload rest : Bytes)
    → 8 + length payload < 65536
    → tds_payload typ (some (8 + length payload)) (payload ++ rest) ≡ some (typ ∷ payload, rest)
unfolding tds_payload
whole_payload typ payload rest h =
    let len : 8 + length payload - 8 ≡ length payload = omega arith in
    let fits : (ltb (8 + length payload) 8 || ltb 65536 (8 + length payload)) ≡ false =
      ground arith in
    rw (fits, len, read_full-append payload rest) refl

-- A packet that fits its length is read back as it is written, and what follows it is left.
pub read_tds_packet-tds_packet :
    (typ : ℕ) (payload rest : Bytes)
    → 8 + length payload < 65536
    → read_tds_packet (tds_packet typ payload ++ rest) ≡ some (typ ∷ payload, rest)
unfolding read_tds_packet tds_packet
read_tds_packet-tds_packet typ payload rest h =
    ap (λ n. tds_payload typ n (payload ++ rest)) (be16-put_be16 (8 + length payload) [] h)
    ∙ whole_payload typ payload rest h

login_round :
    (f w : ℕ) (login rest user obf : Bytes)
    → 8 + length login < 65536
    → parse_login7 login ≡ some (some (user, obf))
    → records (mssql_loop (suc f) w (tds_packet 0x10 login ++ rest)) ≡ tds_credential user obf ∷ []
unfolding mssql_loop tds_message login7 records
login_round f w login rest user obf h e =
    rw (read_tds_packet-tds_packet 0x10 login rest h, e)
      (ap (◌∷◌ (tds_credential user obf))
        (records-reply_ignored (tds_packet 4 (login_failed_token user)) w))

prelogin_round :
    (f w : ℕ) (pre rest : Bytes)
    → 8 + length pre < 65536
    → records (mssql_loop (suc f) (suc w) (tds_packet 0x12 pre ++ rest))
      ≡ records (mssql_loop f w rest)
unfolding mssql_loop tds_message reply records
prelogin_round f w pre rest h = rw (read_tds_packet-tds_packet 0x12 pre rest h) refl

login_length :
    (fixed host user pass : Bytes)
    → length (login7_message fixed host (utf16le user) (obfuscated (utf16le pass)))
      ≡ length fixed + 20 + length host + 2 * length user + 2 * length pass
login_length fixed host user pass = omega (
  arith,
  length-append fixed (
      table (length host) (length (utf16le user)) (length (obfuscated (utf16le pass)))
      ++ (host ++ (utf16le user ++ obfuscated (utf16le pass)))),
  length-append host (utf16le user ++ obfuscated (utf16le pass)),
  length-append (utf16le user) (obfuscated (utf16le pass)),
  length-utf16le user,
  length-utf16le pass,
  length-map (utf16le pass),
)

enough :
    (typ : ℕ) (payload s : Bytes)
    → length (tds_packet typ payload ++ s) ≡ suc (7 + length payload + length s)
unfolding tds_packet
enough typ payload s = omega (arith, length-append payload s)

in_clear :
    (user pass : Bytes)
    → pass ≢ []
    → All IsPrintable pass
    → tds_credential user (obfuscated (utf16le pass))
      ≡ record { username = user; password = pass; extra = tds_clear }
unfolding tds_credential
in_clear user pass h all =
    ap (tds_captured user (obfuscated (utf16le pass))) (deobfuscate-obfuscated pass h all)

-- Of a client that sends a prelogin packet and then a LOGIN7 with a user and a password, both printable
-- and not empty, where the answer to the first can be written: what is recorded is the user and the
-- password in clear, whatever is sent behind them.
pub handle_mssql_lem :
    (w : ℕ) (pre fixed host user pass rest : Bytes)
    → 8 + length pre < 65536
    → length fixed ≡ 36
    → 64 + length host + 2 * length user + 2 * length pass < 65536
    → user ≢ []
    → All IsAscii user
    → pass ≢ []
    → All IsPrintable pass
    → records (
        handle_mssql (suc w) (
          tds_packet 0x12 pre
          ++ (tds_packet 0x10 (login7_message fixed host (utf16le user) (obfuscated (utf16le pass)))
              ++ rest)))
      ≡ record { username = user; password = pass; extra = tds_clear } ∷ []
unfolding handle_mssql
handle_mssql_lem w pre fixed host user pass rest h l k hu au hp ap' =
    let obf = obfuscated (utf16le pass) in
    let login = login7_message fixed host (utf16le user) obf in
    let sent = tds_packet 0x10 login ++ rest in
    prelogin_round (length (tds_packet 0x12 pre ++ sent)) w pre sent h
    ∙ ap (λ n. records (mssql_loop n w sent)) (enough 0x12 pre sent)
    ∙ login_round (7 + length pre + length sent) w login rest user obf
        (omega (arith, login_length fixed host user pass))
        (parse_login7-message fixed host user obf l
          (omega (arith, length-map (utf16le pass), length-utf16le pass)) hu au)
    ∙ ap (λ c. c ∷ []) (in_clear user pass hp ap')
