-- ===== src/Honeypot/Postgres.antt =====
-- internal/honeypot/postgres.go: handlePostgres.
pub mod Password
use vps_safe_dashboard.Prelude.{
  ℕ, zero, suc, ◌+◌, ◌-◌, Bool, true, false, ◌||◌, not, List, [], ◌∷◌, ◌++◌, Bytes, Option, none,
  some, codes, ltb, ◌==◌, list_beq, nat_eq, if◌then◌else◌, length, take, drop,
}
use vps_safe_dashboard.Config.HostPort.{cut}
use vps_safe_dashboard.Honeypot.Session.{
  Action, recorded, captured, reply, reply_ignored, read_full, with_read,
}
use vps_safe_dashboard.Honeypot.Wire.{be32, put_be32}

-- The pairs of a startup message, key and value each with a zero byte behind it; the last `user` counts.
-- A pair has two bytes at least, so the number of bytes is fuel enough.
unfoldable pub startup_params : ℕ → Bytes → Bytes → Bytes
startup_params zero user b = user
startup_params (suc f) user [] = user
startup_params (suc f) user (c ∷ b) = if c == 0 then user else elim (cut 0 (c ∷ b)) [
  | none ↦ user
  | some (key, rest) ↦ elim (cut 0 rest) [
    | none ↦ user
    | some (val, rest') ↦
        startup_params f (if list_beq nat_eq key (codes "user") then val else user) rest'
  ]
]

unfoldable pub parse_startup_params : Bytes → Bytes
parse_startup_params b = startup_params (length b) [] b

-- The length counts from itself on.
unfoldable pub build_pg_error : Bytes → Bytes → Bytes
build_pg_error severity message =
    let fields : Bytes = b'S' ∷ severity ++ 0 ∷ b'M' ∷ message ++ 0 ∷ 0 ∷ [] in
    b'E' ∷ put_be32 (4 + length fields) ++ fields

abbrev pub failed_for : Bytes → Bytes
failed_for user = codes "password authentication failed for user " ++ b'"' ∷ user ++ b'"' ∷ []

-- A size that was read, if it is one that is accepted.
abbrev pub sized : ℕ → ℕ → Option ℕ → (ℕ → List Action) → List Action
sized lo hi none next = []
sized lo hi (some n) next = if ltb n lo || ltb hi n then [] else next n

-- authentication in clear text: R, length 8, code 3
abbrev pub ask_cleartext : Bytes
ask_cleartext = b'R' ∷ 0 ∷ 0 ∷ 0 ∷ 8 ∷ 0 ∷ 0 ∷ 0 ∷ 3 ∷ []

-- The password message: p, its length, and the password with a zero byte behind it.
unfoldable pub password_message : Bytes → ℕ → Bytes → List Action
password_message user w input = with_read (read_full 5 input) (λ phdr rest.
    if list_beq nat_eq (take 1 phdr) (b'p' ∷ [])
    then sized 1 65536 (be32 (drop 1 phdr)) (λ p_len.
      with_read (read_full p_len rest) (λ pbuf rest'.
        recorded (captured user (take (p_len - 1) pbuf))
        ∷ reply_ignored (build_pg_error (codes "FATAL") (failed_for user)) w (λ w'. [])))
    else [])

-- A startup message of version 3.0 is followed by the request for the password.
unfoldable pub startup_body : Bytes → ℕ → Bytes → List Action
startup_body body w rest = elim (be32 body) [
  | none ↦ []
  | some version ↦
      if version == 196608
      then reply ask_cleartext w
          (λ w'. password_message (parse_startup_params (drop 4 body)) w' rest)
      else []
]

unfoldable pub handle_postgres : ℕ → Bytes → List Action
handle_postgres w input = with_read (read_full 4 input) (λ hdr rest.
    sized 8 65536 (be32 hdr) (λ msg_len.
      with_read (read_full (msg_len - 4) rest) (λ body rest'. startup_body body w rest')))
