-- ===== src/Honeypot/Sessions/Single.antt =====
-- The databases that record one credential of a connection.
use vps_safe_dashboard.Prelude.{
  ℕ, zero, suc, ◌==◌, ◌||◌, list_beq, nat_eq, List, [], ◌∷◌, Bytes, Option, none, some,
  Option-cases, inl, inr, length, take, drop, ltb, ◌+◌, ◌-◌, ◌*◌,
}
use vps_safe_dashboard.Honeypot.Session.{Action, reply_ignored, read_full}
use vps_safe_dashboard.Honeypot.Session.Limits.{
  Most, nothing-Most, reply-Most, reply_ignored-Most, with_read-Most, if-Most, refused-Most,
}
use vps_safe_dashboard.Honeypot.Wire.{be32}
use vps_safe_dashboard.Honeypot.Postgres.{
  parse_startup_params, sized, password_message, startup_body, handle_postgres,
}
use vps_safe_dashboard.Honeypot.Mysql.{
  record_hash, mysql_login, mysql_payload, mysql_response, handle_mysql,
}
use vps_safe_dashboard.Honeypot.Mssql.{login7, tds_message, mssql_loop, handle_mssql, parse_login7}

-- What follows the bound of every step of a loop.
abbrev Once : (ℕ → List Action) → Type 0
Once next = (w : ℕ) → Most 1 (next w)

sized-Most :
    (lo hi : ℕ) (o : Option ℕ) (next : ℕ → List Action)
    → ((n : ℕ) → Most 1 (next n))
    → Most 1 (sized lo hi o next)
sized-Most lo hi none next h = nothing-Most 1
sized-Most lo hi (some n) next h = if-Most 1 _ _ _ (nothing-Most 1) (h n)

password_message-Most :
    (user : Bytes) (w : ℕ) (input : Bytes) → Most 1 (password_message user w input)
unfolding password_message
password_message-Most user w input = with_read-Most 1 (read_full 5 input) _ (λ phdr rest.
    if-Most 1 (list_beq nat_eq (take 1 phdr) (b'p' ∷ [])) _ _
      (sized-Most 1 65536 (be32 (drop 1 phdr)) _
        (λ n. with_read-Most 1 (read_full n rest) _ (λ pbuf rest'. refused-Most _ _ w)))
      (nothing-Most 1))

login7-Most :
    (o : Option (Option (Bytes × Bytes))) (w : ℕ) (next : ℕ → List Action)
    → Once next
    → Most 1 (login7 o w next)
unfolding login7
login7-Most none w next h = nothing-Most 1
login7-Most (some none) w next h = h w
login7-Most (some (some (user, obf))) w next h = refused-Most _ _ w

tds_message-Most :
    (pkt : Bytes) (w : ℕ) (next : ℕ → List Action) → Once next → Most 1 (tds_message pkt w next)
unfolding tds_message
tds_message-Most [] w next h = h w
tds_message-Most (t ∷ login) w next h = if-Most 1 (t == 0x12) _ _ (reply-Most 1 _ w next h) (
    if-Most 1 (t == 0x10) _ _ (login7-Most (parse_login7 login) w next h)
      (if-Most 1 (t == 0x02) _ _ (nothing-Most 1) (h w)))

mssql_loop-Most : (f : ℕ) (input : Bytes) → Once (λ w. mssql_loop f w input)
unfolding mssql_loop
mssql_loop-Most zero input w = nothing-Most 1
mssql_loop-Most (suc f) input w =
    with_read-Most 1 _ _
      (λ pkt rest. tds_message-Most pkt w (λ w'. mssql_loop f w' rest) (mssql_loop-Most f rest))

startup_body-Most : (body : Bytes) (w : ℕ) (rest : Bytes) → Most 1 (startup_body body w rest)
unfolding startup_body
startup_body-Most body w rest = elim (Option-cases (be32 body)) [
  | inl e ↦ rw (startup_body, e) (nothing-Most 1)
  | inr (version, e) ↦
      rw (startup_body, e)
        (if-Most 1 (version == 196608) _ _
          (reply-Most 1 _ w _
            (λ w'. password_message-Most (parse_startup_params (drop 4 body)) w' rest))
          (nothing-Most 1))
]

pub handle_postgres-Most : (w : ℕ) (input : Bytes) → Most 1 (handle_postgres w input)
unfolding handle_postgres
handle_postgres-Most w input = with_read-Most 1 _ _ (λ hdr rest.
    sized-Most 8 65536 (be32 hdr) _ (λ n.
      with_read-Most 1 (read_full (n - 4) rest) _ (λ body rest'. startup_body-Most body w rest')))

pub handle_mssql-Most : (w : ℕ) (input : Bytes) → Most 1 (handle_mssql w input)
unfolding handle_mssql
handle_mssql-Most w input = mssql_loop-Most (suc (length input)) input w

record_hash-Most :
    (user pass b : Bytes) (w : ℕ) → Most 1 (record_hash user pass (reply_ignored b w (λ w'. [])))
record_hash-Most [] [] b w = reply_ignored-Most 1 b w (λ w'. []) (λ w'. nothing-Most 1)
record_hash-Most [] (c ∷ pass) b w = refused-Most _ b w
record_hash-Most (c ∷ user) pass b w = refused-Most _ b w

mysql_login-Most :
    (o : Option ℕ) (o' : Option (Bytes × Bytes)) (w : ℕ) → Most 1 (mysql_login o o' w)
unfolding mysql_login
mysql_login-Most none o' w = nothing-Most 1
mysql_login-Most (some caps) none w = nothing-Most 1
mysql_login-Most (some caps) (some (user, s)) w = record_hash-Most user _ _ w

mysql_payload-Most : (payload : Bytes) (w : ℕ) → Most 1 (mysql_payload payload w)
unfolding mysql_payload
mysql_payload-Most payload w =
    if-Most 1 (ltb (length payload) 32) _ _ (nothing-Most 1) (mysql_login-Most _ _ w)

mysql_response-Most : (w : ℕ) (input : Bytes) → Most 1 (mysql_response w input)
unfolding mysql_response
mysql_response-Most w [] = nothing-Most 1
mysql_response-Most w (a ∷ []) = nothing-Most 1
mysql_response-Most w (a ∷ b ∷ []) = nothing-Most 1
mysql_response-Most w (a ∷ b ∷ c ∷ []) = nothing-Most 1
mysql_response-Most w (a ∷ b ∷ c ∷ seq ∷ s) =
    let n : ℕ = a + b * 256 + c * 65536 in
    if-Most 1 (ltb n 4 || ltb 1048576 n) _ _ (nothing-Most 1)
      (with_read-Most 1 (read_full n s) _ (λ payload rest. mysql_payload-Most payload w))

pub handle_mysql-Most : (w : ℕ) (input : Bytes) → Most 1 (handle_mysql w input)
unfolding handle_mysql
handle_mysql-Most w input = reply-Most 1 _ w _ (λ w'. mysql_response-Most w' input)
