-- ===== src/Honeypot/Ftp.antt =====
-- internal/honeypot/ftp.go: handleFTP. Each round reads a line, and a line has a byte at least, so more
-- rounds of fuel than bytes are enough.
pub mod Credentials
pub mod Ends
use vps_safe_dashboard.Prelude.{
  ℕ, zero, suc, ◌+◌, Bool, true, false, ◌||◌, List, [], ◌∷◌, ◌++◌, Bytes, Option, none, some, codes,
  ltb, ◌==◌, list_beq, nat_eq, if◌then◌else◌, length,
}
use vps_safe_dashboard.Text.Spaces.{trim_space, upper}
use vps_safe_dashboard.Honeypot.{creds_per_conn_limit}
use vps_safe_dashboard.Honeypot.Session.{
  Action, wrote, recorded, captured, reply, reply_ignored, crlf, with_read,
}
use vps_safe_dashboard.Honeypot.Lines.{read_line}

-- What stands before the first blank, and behind it.
unfoldable pub cut_blank : Bytes → Bytes × Bytes
cut_blank [] = ([], [])
cut_blank (c ∷ s) =
    let (word, rest) = cut_blank s in if c == b' ' || c == b'\t' then ([], s) else (c ∷ word, rest)

-- The command in upper case, as runes, and its argument.
unfoldable pub split_command : Bytes → List ℕ × Bytes
split_command line = let (word, rest) = cut_blank (trim_space line) in (upper word, trim_space rest)

pub data Command : Type 0 where
  user_cmd pass_cmd quit_cmd empty_cmd other_cmd : Command

-- The switch over the command.
unfoldable pub command_of : List ℕ → Command
command_of cmd =
    if list_beq nat_eq cmd (codes "USER")
    then user_cmd
    else if list_beq nat_eq cmd (codes "PASS")
    then pass_cmd
    else if list_beq nat_eq cmd (codes "QUIT")
    then quit_cmd
    else if list_beq nat_eq cmd []
    then empty_cmd
    else other_cmd

-- if credCount < credsPerConnLimit { rec(c) }, and what follows
abbrev pub record_some : ℕ → Bytes → Bytes → List Action → List Action
record_some count user pass next =
    if ltb count creds_per_conn_limit then recorded (captured user pass) ∷ next else next

-- One round; `next` is the loop with the writes left, the pending user and the count.
unfoldable pub ftp_command :
    Command → Bytes → ℕ → Bytes → ℕ → (ℕ → Bytes → ℕ → List Action) → List Action
ftp_command user_cmd arg w user count next =
    reply (codes "331 Password required" ++ crlf) w (λ w'. next w' arg count)
ftp_command pass_cmd arg w user count next =
    record_some count user arg
      (reply (codes "530 Login incorrect" ++ crlf) w (λ w'. next w' [] (count + 1)))
ftp_command quit_cmd arg w user count next =
    reply_ignored (codes "221 Goodbye" ++ crlf) w (λ w'. [])
ftp_command empty_cmd arg w user count next = next w user count
ftp_command other_cmd arg w user count next =
    reply (codes "502 Command not implemented" ++ crlf) w (λ w'. next w' user count)

unfoldable pub ftp_loop : ℕ → ℕ → Bytes → ℕ → Bytes → List Action
ftp_loop zero w user count input = []
ftp_loop (suc f) w user count input = with_read (read_line input) (λ line rest.
    let (cmd, arg) = split_command line in
    ftp_command (command_of cmd) arg w user count
      (λ w' user' count'. ftp_loop f w' user' count' rest))

unfoldable pub handle_ftp : ℕ → Bytes → List Action
handle_ftp w input =
    reply (codes "220 FTP Server ready" ++ crlf) w
      (λ w'. ftp_loop (suc (length input)) w' [] 0 input)
