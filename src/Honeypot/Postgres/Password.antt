-- ===== src/Honeypot/Postgres/Password.antt =====
-- The length of a password message counts from itself on, and the handler reads as if it did not.
use vps_safe_dashboard.Prelude.{
  ℕ, zero, suc, ◌+◌, ◌-◌, ◌≤◌, ◌≡◌, ap, ◌∙◌, List, [], ◌∷◌, ◌++◌, Bytes, Option, some, codes,
  length, length-append, take, arith,
}
use vps_safe_dashboard.Honeypot.Session.{
  Action, recorded, captured, records, reply, reply_ignored, read_full, with_read,
}
use vps_safe_dashboard.Honeypot.Session.Reads.{
  records-reply_ignored, read_full-append, read_full_all, read_full_short, take-append,
}
use vps_safe_dashboard.Honeypot.Wire.{be32, put_be32}
use vps_safe_dashboard.Honeypot.Wire.RoundTrip.{be32-put_be32}
use vps_safe_dashboard.Honeypot.Postgres.{
  parse_startup_params, build_pg_error, failed_for, sized, password_message, startup_body,
  handle_postgres,
}

-- A startup message of version 3.0, and what follows.
abbrev pub startup : Bytes → Bytes → Bytes
startup params rest = put_be32 (8 + length params) ++ (put_be32 196608 ++ params) ++ rest

-- A password message with a length.
abbrev pub password : ℕ → Bytes → Bytes
password n pass = b'p' ∷ put_be32 n ++ (pass ++ 0 ∷ [])

sized_in :
    (lo hi n : ℕ) (next : ℕ → List Action) → lo ≤ n → n ≤ hi → sized lo hi (some n) next ≡ next n
sized_in lo hi n next h k = ground arith

body_of :
    (params rest : Bytes)
    → read_full (8 + length params - 4) (put_be32 196608 ++ params ++ rest)
      ≡ some (put_be32 196608 ++ params, rest)
body_of params rest =
    ap (λ (n : ℕ). read_full n (put_be32 196608 ++ params ++ rest)) (omega arith)
    ∙ read_full-append (put_be32 196608 ++ params) rest

-- What follows the length of a startup message, and of a password message.
abbrev on_startup : Bytes → ℕ → ℕ → List Action
on_startup s w n = with_read (read_full (n - 4) s) (λ body rest. startup_body body w rest)

abbrev on_password_read : Bytes → ℕ → ℕ → Option (Bytes × Bytes) → List Action
on_password_read user w n o = with_read o (λ pbuf rest.
    recorded (captured user (take (n - 1) pbuf))
    ∷ reply_ignored (build_pg_error (codes "FATAL") (failed_for user)) w (λ w'. []))

abbrev on_password : Bytes → Bytes → ℕ → ℕ → List Action
on_password user s w n = on_password_read user w n (read_full n s)

after_startup :
    (params rest : Bytes) (w : ℕ)
    → length params ≤ 65528
    → handle_postgres w (startup params rest) ≡ startup_body (put_be32 196608 ++ params) w rest
unfolding handle_postgres read_full
after_startup params rest w h =
    ap (λ o. sized 8 65536 o (on_startup (put_be32 196608 ++ params ++ rest) w))
      (be32-put_be32 (8 + length params) [] (omega arith))
    ∙ sized_in 8 65536 (8 + length params) (on_startup (put_be32 196608 ++ params ++ rest) w)
        (omega arith) (omega arith)
    ∙ ap (λ o. with_read o (λ body rest'. startup_body body w rest')) (body_of params rest)

of_password :
    (user pass : Bytes) (n w : ℕ)
    → 1 ≤ n
    → n ≤ 65536
    → password_message user w (password n pass) ≡ on_password user (pass ++ 0 ∷ []) w n
unfolding password_message read_full
of_password user pass n w h k =
    ap (λ o. sized 1 65536 o (on_password user (pass ++ 0 ∷ []) w))
      (be32-put_be32 n [] (omega arith))
    ∙ sized_in 1 65536 n (on_password user (pass ++ 0 ∷ []) w) h k

asked :
    (params rest : Bytes) (w : ℕ)
    → length params ≤ 65528
    → records (handle_postgres (suc w) (startup params rest))
      ≡ records (password_message (parse_startup_params params) w rest)
unfolding startup_body be32 reply records
asked params rest w h = ap records (after_startup params rest (suc w) h)

whole : (pass : Bytes) → read_full (1 + length pass) (pass ++ 0 ∷ []) ≡ some (pass ++ 0 ∷ [], [])
whole pass =
    ap (λ n. read_full n (pass ++ 0 ∷ [])) (omega (arith, length-append pass (0 ∷ [])))
    ∙ read_full_all (pass ++ 0 ∷ [])

-- Of a client that sends a startup message and then a password message as the protocol has it, whose
-- length counts its own four bytes, and waits: nothing is recorded, however many writes succeed.
pub handle_postgres_misses :
    (params pass : Bytes) (w : ℕ)
    → length params ≤ 65528
    → length pass ≤ 65531
    → records (handle_postgres w (startup params (password (5 + length pass) pass))) ≡ []
unfolding startup_body be32 reply records
handle_postgres_misses params pass zero h k =
    ap records (after_startup params (password (5 + length pass) pass) zero h)
handle_postgres_misses params pass (suc w) h k =
    let user = parse_startup_params params in
    asked params (password (5 + length pass) pass) w h
    ∙ ap records (of_password user pass (5 + length pass) w (omega arith) (omega arith))
    ∙ ap (λ o. records (on_password_read user w (5 + length pass) o))
        (read_full_short (5 + length pass) (pass ++ 0 ∷ [])
          (omega (arith, length-append pass (0 ∷ []))))

-- Of a client whose password message has a length that does not count itself: the user of the startup
-- message and the password are recorded, and nothing else.
pub handle_postgres_lem :
    (params pass : Bytes) (w : ℕ)
    → length params ≤ 65528
    → length pass ≤ 65535
    → records (handle_postgres (suc w) (startup params (password (1 + length pass) pass)))
      ≡ captured (parse_startup_params params) pass ∷ []
unfolding records
handle_postgres_lem params pass w h k =
    let user = parse_startup_params params in
    let error = build_pg_error (codes "FATAL") (failed_for user) in
    asked params (password (1 + length pass) pass) w h
    ∙ ap records (of_password user pass (1 + length pass) w (omega arith) (omega arith))
    ∙ ap (λ o. records (on_password_read user w (1 + length pass) o)) (whole pass)
    ∙ ap (λ p. captured user p ∷ records (reply_ignored error w (λ w'. [])))
        (ap (λ n. take n (pass ++ 0 ∷ [])) (omega arith) ∙ take-append pass (0 ∷ []))
    ∙ ap (◌∷◌ (captured user pass)) (records-reply_ignored error w)
