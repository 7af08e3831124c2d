-- ===== src/Honeypot/Sessions/Limited.antt =====
-- How many credentials a connection of any service leaves.
use vps_safe_dashboard.Prelude.{
  ℕ, zero, suc, ◌+◌, ◌-◌, ◌≤◌, Bool-cases, inl, inr, ◌||◌, List, [], ◌∷◌, Bytes, Option, none, some,
  codes, ltb, if◌then◌else◌, length, drop, arith,
}
use vps_safe_dashboard.Honeypot.{creds_per_conn_limit}
use vps_safe_dashboard.Honeypot.Protocols.{Handler}
use vps_safe_dashboard.Honeypot.Session.{Action, recorded, Captured, captured, records, read_full}
use vps_safe_dashboard.Honeypot.Session.Limits.{
  Most, nothing-Most, recorded-Most, reply-Most, reply_ignored-Most, with_read-Most, if-Most,
}
use vps_safe_dashboard.Honeypot.Wire.{le32}
use vps_safe_dashboard.Honeypot.Lines.{read_line}
use vps_safe_dashboard.Honeypot.Telnet
use vps_safe_dashboard.Honeypot.Telnet.{login_rounds}
use vps_safe_dashboard.Honeypot.Ftp
use vps_safe_dashboard.Honeypot.Ftp.{
  Command, user_cmd, pass_cmd, quit_cmd, empty_cmd, other_cmd, ftp_command, ftp_loop, command_of,
  split_command,
}
use vps_safe_dashboard.Honeypot.Mongodb
use vps_safe_dashboard.Honeypot.Mongodb.{
  Sasl, command_doc, write_mongo_msg, record_sasl, build_mongo_reply, mongo_command, mongo_body,
  mongo_header, mongo_loop, parse_mongo_command,
}
use vps_safe_dashboard.Honeypot.Redis.Limited.{length-handle_redis}
use vps_safe_dashboard.Honeypot.Sessions.{run_handler}
use vps_safe_dashboard.Honeypot.Sessions.Single.{
  handle_postgres-Most, handle_mssql-Most, handle_mysql-Most,
}
use vps_safe_dashboard.Honeypot.Sessions.Remote.{
  handle_smb-Most, handle_rdp-Most, handle_memcached-Most,
}

login_rounds-Most : (rounds w : ℕ) (input : Bytes) → Most rounds (login_rounds rounds w input)
unfolding login_rounds
login_rounds-Most zero w input = nothing-Most 0
login_rounds-Most (suc rounds) w input = reply-Most (suc rounds) _ w _ (λ w1.
    with_read-Most (suc rounds) _ _ (λ user rest. reply-Most (suc rounds) _ w1 _ (λ w2.
      with_read-Most (suc rounds) _ _ (λ pass rest'.
        recorded-Most rounds (captured user pass) _
          (reply-Most rounds _ w2 _ (λ w3. login_rounds-Most rounds w3 rest'))))))

-- Behind a count of n, at most what is left of the limit is recorded.
counted-Most :
    (n : ℕ) (c : Captured) (later : List Action)
    → Most (10 - (n + 1)) later
    → Most (10 - n) (if ltb n 10 then recorded c ∷ later else later)
unfolding records
counted-Most n c later h = elim (Bool-cases (ltb n 10)) [
  | inl e ↦ rw e (ground arith)
  | inr e ↦ rw e (ground arith)
]

-- The loops of FTP and of MongoDB behind a count.
abbrev LeftFtp : (ℕ → Bytes → ℕ → List Action) → Type 0
LeftFtp next = (w : ℕ) (user : Bytes) (n : ℕ) → Most (10 - n) (next w user n)

abbrev Left : (ℕ → ℕ → List Action) → Type 0
Left next = (w n : ℕ) → Most (10 - n) (next w n)

ftp_command-Most :
    (c : Command) (arg : Bytes) (w : ℕ) (user : Bytes) (n : ℕ) (next : ℕ → Bytes → ℕ → List Action)
    → LeftFtp next
    → Most (10 - n) (ftp_command c arg w user n next)
unfolding ftp_command
ftp_command-Most user_cmd arg w user n next h = reply-Most (10 - n) _ w _ (λ w'. h w' arg n)
ftp_command-Most pass_cmd arg w user n next h =
    counted-Most n (captured user arg) _ (reply-Most (10 - (n + 1)) _ w _ (λ w'. h w' [] (n + 1)))
ftp_command-Most quit_cmd arg w user n next h =
    reply_ignored-Most (10 - n) _ w _ (λ w'. nothing-Most (10 - n))
ftp_command-Most empty_cmd arg w user n next h = h w user n
ftp_command-Most other_cmd arg w user n next h = reply-Most (10 - n) _ w _ (λ w'. h w' user n)

ftp_loop-Most : (f : ℕ) (input : Bytes) → LeftFtp (λ w user n. ftp_loop f w user n input)
unfolding ftp_loop
ftp_loop-Most zero input w user n = nothing-Most (10 - n)
ftp_loop-Most (suc f) input w user n = with_read-Most (10 - n) (read_line input) _ (λ line rest.
    ftp_command-Most (command_of (split_command line).0) (split_command line).1 w user n
      (λ w' user' n'. ftp_loop f w' user' n' rest) (ftp_loop-Most f rest))

mongo_command-Most :
    (o : Option Sasl) (req_id w n : ℕ) (next : ℕ → ℕ → List Action)
    → Left next
    → Most (10 - n) (mongo_command o req_id w n next)
unfolding mongo_command write_mongo_msg
mongo_command-Most none req_id w n next h = nothing-Most (10 - n)
mongo_command-Most (some found) req_id w n next h =
    if-Most (10 - n) found.is_auth _ _
      (counted-Most n _ _ (
        if-Most (10 - (n + 1)) (ltb (length (build_mongo_reply (codes "Authentication failed"))) 16)
          _ _ (h w (n + 1)) (reply-Most (10 - (n + 1)) _ w _ (λ w'. h w' (n + 1)))))
      (h w n)

mongo_body-Most :
    (o : Option Bytes) (req_id w n : ℕ) (next : ℕ → ℕ → List Action)
    → Left next
    → Most (10 - n) (mongo_body o req_id w n next)
unfolding mongo_body
mongo_body-Most none req_id w n next h = h w n
mongo_body-Most (some doc) req_id w n next h =
    mongo_command-Most (parse_mongo_command doc) req_id w n next h

mongo_header-Most :
    (a b c : Option ℕ) (s : Bytes) (w n : ℕ) (next : Bytes → ℕ → ℕ → List Action)
    → ((rest : Bytes) → Left (next rest))
    → Most (10 - n) (mongo_header a b c s w n next)
unfolding mongo_header
mongo_header-Most none b c s w n next h = nothing-Most (10 - n)
mongo_header-Most (some len) none c s w n next h = nothing-Most (10 - n)
mongo_header-Most (some len) (some id) none s w n next h = nothing-Most (10 - n)
mongo_header-Most (some len) (some id) (some op) s w n next h =
    if-Most (10 - n) (ltb len 16 || ltb 1048576 len) _ _ (nothing-Most (10 - n)) (
      with_read-Most (10 - n) (read_full (len - 16) s) _
        (λ body rest. mongo_body-Most (command_doc op body) id w n (next rest) (h rest)))

mongo_loop-Most : (f : ℕ) (input : Bytes) → Left (λ w n. mongo_loop f w n input)
unfolding mongo_loop
mongo_loop-Most zero input w n = nothing-Most (10 - n)
mongo_loop-Most (suc f) input w n = with_read-Most (10 - n) (read_full 16 input) _ (λ hdr s.
    mongo_header-Most (le32 hdr) (le32 (drop 4 hdr)) (le32 (drop 12 hdr)) s w n
      (λ rest w' n'. mongo_loop f w' n' rest) (mongo_loop-Most f))

weaken : (k : ℕ) (later : List Action) → k ≤ 10 → Most k later → Most 10 later
weaken k later h m = omega arith

-- Whatever a client sends to any of the services, and however many writes to it succeed, its connection
-- leaves at most ten credentials.
pub length-run_handler :
    (p : Handler) (w : ℕ) (input : Bytes)
    → length (records (run_handler p w input)) ≤ creds_per_conn_limit
unfolding run_handler Telnet.handle_telnet Ftp.handle_ftp Mongodb.handle_mongodb
length-run_handler Handler.handle_telnet w input =
    weaken 5 _ (omega arith) (reply-Most 5 _ w _ (λ w'. login_rounds-Most 5 w' input))
length-run_handler Handler.handle_ftp w input =
    reply-Most 10 _ w _ (λ w'. ftp_loop-Most (suc (length input)) input w' [] 0)
length-run_handler Handler.handle_redis w input = length-handle_redis w input
length-run_handler Handler.handle_postgres w input =
    weaken 1 _ (omega arith) (handle_postgres-Most w input)
length-run_handler Handler.handle_mysql w input =
    weaken 1 _ (omega arith) (handle_mysql-Most w input)
length-run_handler Handler.handle_mongodb w input = mongo_loop-Most (suc (length input)) input w 0
length-run_handler Handler.handle_mssql w input =
    weaken 1 _ (omega arith) (handle_mssql-Most w input)
length-run_handler Handler.handle_smb w input = weaken 1 _ (omega arith) (handle_smb-Most w input)
length-run_handler Handler.handle_rdp w input = weaken 1 _ (omega arith) (handle_rdp-Most w input)
length-run_handler Handler.handle_memcached w input =
    weaken 1 _ (omega arith) (handle_memcached-Most w input)
