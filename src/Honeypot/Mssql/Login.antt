-- ===== src/Honeypot/Mssql/Login.antt =====
-- A LOGIN7 message gives its user and its password.
use vps_safe_dashboard.Prelude.{
  ℕ, ◌+◌, ◌*◌, ◌≤◌, ◌<◌, ◌≡◌, ◌≢◌, refl, ◌∙◌, sym, false, [], ◌∷◌, ◌++◌, Bytes, some, ltb, length,
  length-append, take, drop, All, arith,
}
use mathlib.Core.List.{append_assoc, append-nil}
use vps_safe_dashboard.Honeypot.Wire.{be16, put_be16}
use vps_safe_dashboard.Honeypot.Wire.RoundTrip.{be16-put_be16}
use vps_safe_dashboard.Honeypot.Utf16.Ascii.{utf16le, length-utf16le, IsAscii}
use vps_safe_dashboard.Honeypot.Mssql.Fields.{
  number_at-table, skipped, host_value, field_step, password_value, user_value,
}
use vps_safe_dashboard.Honeypot.Mssql.{
  login7_field, number_at, login7_fields, accepted, parse_login7,
}

-- The table of a message with values of lengths h, u and p, one behind the other.
abbrev pub table : ℕ → ℕ → ℕ → Bytes
table h u p =
    put_be16 56
    ++ put_be16 h
    ++ put_be16 (56 + h)
    ++ put_be16 u
    ++ put_be16 (56 + h + u)
    ++ put_be16 p
    ++ 0 ∷ 0 ∷ 0 ∷ 0 ∷ 0 ∷ 0 ∷ 0 ∷ 0 ∷ []

-- A message of LOGIN7: 36 bytes, the table, and the values of host, user and password.
abbrev pub login7_message : Bytes → Bytes → Bytes → Bytes → Bytes
login7_message fixed host user obf =
    fixed ++ (table (length host) (length user) (length obf) ++ (host ++ (user ++ obf)))

module _ (fixed host user obf : Bytes) (l : length fixed ≡ 36)
    (k : 56 + length host + length user + length obf < 65536) where
  d : Bytes
  d = login7_message fixed host user obf

  length-d : length d ≡ 56 + length host + length user + length obf
  unfolding d
  length-d = omega (
    arith,
    length-append fixed (table (length host) (length user) (length obf) ++ (host ++ (user ++ obf))),
    length-append host (user ++ obf),
    length-append user obf,
  )

  long : 56 ≤ length d
  long = omega (arith, length-d)

  entry :
      (j n : ℕ)
      → j ≤ 18
      → n < 65536
      → be16 (
          take 2
            (drop j (table (length host) (length user) (length obf) ++ (host ++ (user ++ obf)))))
        ≡ be16 (put_be16 n ++ [])
      → number_at (36 + j) d ≡ some n
  unfolding d
  entry j n h b e =
      number_at-table fixed
        (table (length host) (length user) (length obf) ++ (host ++ (user ++ obf))) j l
        (omega arith)
      ∙ e
      ∙ be16-put_be16 n [] b

  at_user : d ≡ fixed ++ table (length host) (length user) (length obf) ++ host ++ user ++ obf
  unfolding d
  at_user = simp append_assoc refl

  at_password :
      d ≡ (fixed ++ table (length host) (length user) (length obf) ++ host ++ user) ++ obf ++ []
  at_password =
      at_user
      ∙ sym (
          append-nil
            (fixed ++ table (length host) (length user) (length obf) ++ host ++ user ++ obf))

  length_front :
      length (fixed ++ table (length host) (length user) (length obf) ++ host ++ user)
      ≡ 56 + length host + length user
  length_front = omega (
    arith,
    length-append (fixed ++ table (length host) (length user) (length obf) ++ host) user,
    length-append (fixed ++ table (length host) (length user) (length obf)) host,
    length-append fixed (table (length host) (length user) (length obf)),
  )

  pub length_host :
      length (fixed ++ table (length host) (length user) (length obf) ++ host) ≡ 56 + length host
  length_host = omega (
    arith,
    length-append (fixed ++ table (length host) (length user) (length obf)) host,
    length-append fixed (table (length host) (length user) (length obf)),
  )

  fields_lem :
      (u : Bytes)
      → login7_field d 1 (some (56 + length host)) (some (length user)) ([], []) ≡ some (u, [])
      → login7_fields 5 d ([], []) ≡ some (u, obf)
  unfolding login7_fields
  fields_lem u e =
      field_step 4 d 56 (length host) ([], []) ([], []) (omega (arith, long))
        (entry 0 56 (omega arith) (omega arith) refl)
        (entry 2 (length host) (omega arith) (omega arith) refl)
        (host_value d 56 (length host) ([], []) (omega (arith, length-d)))
      ∙ field_step 3 d (56 + length host) (length user) ([], []) (u, []) (omega (arith, long))
          (entry 4 (56 + length host) (omega arith) (omega arith) refl)
          (entry 6 (length user) (omega arith) (omega arith) refl) e
      ∙ field_step 2 d (56 + length host + length user) (length obf) (u, []) (u, obf)
          (omega (arith, long))
          (entry 8 (56 + length host + length user) (omega arith) (omega arith) refl)
          (entry 10 (length obf) (omega arith) (omega arith) refl)
          (password_value d
            (fixed ++ table (length host) (length user) (length obf) ++ host ++ user) obf [] u
            (56 + length host + length user) at_password (omega (arith, length_front)))
      ∙ field_step 1 d 0 0 (u, obf) (u, obf) (omega (arith, long))
          (entry 12 0 (omega arith) (omega arith) refl)
          (entry 14 0 (omega arith) (omega arith) refl) (skipped d 3 0 (u, obf))
      ∙ field_step 0 d 0 0 (u, obf) (u, obf) (omega (arith, long))
          (entry 16 0 (omega arith) (omega arith) refl)
          (entry 18 0 (omega arith) (omega arith) refl) (skipped d 4 0 (u, obf))

  parsed :
      (u : Bytes)
      → u ≢ []
      → login7_field d 1 (some (56 + length host)) (some (length user)) ([], []) ≡ some (u, [])
      → parse_login7 d ≡ some (some (u, obf))
  unfolding parse_login7
  parsed u h e =
      let enough : ltb (length d) 36 ≡ false = ground (arith, long) in
      let enough' : ltb (length d) (36 + 12) ≡ false = ground (arith, long) in
      rw (enough, enough', fields_lem u e) (taken u h)
    where
      taken : (u : Bytes) → u ≢ [] → accepted (some (u, obf)) ≡ some (some (u, obf))
      taken [] h = absurd (h refl)
      taken (c ∷ u) h = refl

-- Of a message with a user of ASCII that is not empty, and any bytes for the password.
pub parse_login7-message :
    (fixed host user obf : Bytes)
    → length fixed ≡ 36
    → 56 + length host + 2 * length user + length obf < 65536
    → user ≢ []
    → All IsAscii user
    → parse_login7 (login7_message fixed host (utf16le user) obf) ≡ some (some (user, obf))
unfolding d
parse_login7-message fixed host user obf l k h all =
    let k' : 56 + length host + length (utf16le user) + length obf < 65536 =
      omega (arith, length-utf16le user) in
    parsed fixed host (utf16le user) obf l k' user h (
      user_value (d fixed host (utf16le user) obf l k')
        (fixed ++ table (length host) (length (utf16le user)) (length obf) ++ host) obf user
        (56 + length host) (at_user fixed host (utf16le user) obf l k')
        (sym (length_host fixed host (utf16le user) obf l k')) h all)
