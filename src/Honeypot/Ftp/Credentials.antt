-- ===== src/Honeypot/Ftp/Credentials.antt =====
-- Which credentials an FTP session records.
use vps_safe_dashboard.Prelude.{
  ℕ, zero, suc, ◌+◌, ◌-◌, ◌≤◌, ◌<◌, ◌≡◌, refl, ap, sym, ◌∙◌, Bool, true, false, List, [], ◌∷◌,
  Bytes, Option, none, some, ltb, ltb→lt, if◌then◌else◌, length, take, arith,
}
use vps_safe_dashboard.Honeypot.{creds_per_conn_limit}
use vps_safe_dashboard.Honeypot.Session.{
  Action, recorded, Captured, captured, records, reply, reply_ignored, with_read,
}
use vps_safe_dashboard.Honeypot.Lines.{read_line}
use vps_safe_dashboard.Honeypot.Ftp.{
  Command, user_cmd, pass_cmd, quit_cmd, empty_cmd, other_cmd, command_of, split_command,
  ftp_command, ftp_loop, handle_ftp,
}

-- The commands of a session with their arguments, as many as there are lines.
unfoldable pub commands : ℕ → Bytes → List (Command × Bytes)
commands zero input = []
commands (suc f) input = elim (read_line input) [
  | none ↦ []
  | some (line, rest) ↦
      (command_of (split_command line).0, (split_command line).1) ∷ commands f rest
]

-- The commands from a line on that was read, or not.
abbrev commands_after : ℕ → Option (Bytes × Bytes) → List (Command × Bytes)
commands_after f none = []
commands_after f (some (line, rest)) =
    (command_of (split_command line).0, (split_command line).1) ∷ commands f rest

-- Each PASS with the USER before it, up to QUIT. A user is used up by a PASS.
unfoldable pub logins : Bytes → List (Command × Bytes) → List Captured
logins user [] = []
logins user ((user_cmd, arg) ∷ cs) = logins arg cs
logins user ((pass_cmd, arg) ∷ cs) = captured user arg ∷ logins [] cs
logins user ((quit_cmd, arg) ∷ cs) = []
logins user ((empty_cmd, arg) ∷ cs) = logins user cs
logins user ((other_cmd, arg) ∷ cs) = logins user cs

take_nil : (n : ℕ) → take {A = Captured} n [] ≡ []
take_nil zero = refl
take_nil (suc n) = refl

-- What is left of the limit after one more.
take_some :
    (n : ℕ) (c : Captured) (cs : List Captured)
    → n < 10
    → take (10 - n) (c ∷ cs) ≡ c ∷ take (10 - (n + 1)) cs
take_some n c cs h = let left : 10 - n ≡ suc (10 - (n + 1)) = omega arith in rw left refl

take_none :
    (n : ℕ) (c : Captured) (cs ds : List Captured)
    → ltb n 10 ≡ false
    → take (10 - n) (c ∷ cs) ≡ take (10 - (n + 1)) ds
take_none n c cs ds h =
    let a : 10 - n ≡ 0 = ground arith in let b : 10 - (n + 1) ≡ 0 = ground arith in rw (a, b) refl

-- The loop behind a command: with writes enough for the commands that are left, it records what it is
-- to, up to the limit.
abbrev Loop : List (Command × Bytes) → (ℕ → Bytes → ℕ → List Action) → Type 0
Loop cs next =
    (w : ℕ) (user : Bytes) (n : ℕ)
    → length cs ≤ w
    → records (next w user n) ≡ take (10 - n) (logins user cs)

record_pass :
    (b : Bool) (n w : ℕ) (user arg : Bytes) (cs : List (Command × Bytes))
    (next : ℕ → Bytes → ℕ → List Action) (msg : Bytes)
    → ltb n 10 ≡ b
    → length cs ≤ w
    → Loop cs next
    → records (
        if b
        then recorded (captured user arg) ∷ reply msg (suc w) (λ w'. next w' [] (n + 1))
        else reply msg (suc w) (λ w'. next w' [] (n + 1)))
      ≡ take (10 - n) (captured user arg ∷ logins [] cs)
unfolding records reply
record_pass true n w user arg cs next msg e h loop =
    ap (λ (l : List Captured). captured user arg ∷ l) (loop w [] (n + 1) h)
    ∙ sym (take_some n (captured user arg) (logins [] cs) (ltb→lt n 10 e))
record_pass false n w user arg cs next msg e h loop =
    loop w [] (n + 1) h ∙ sym (take_none n (captured user arg) (logins [] cs) (logins [] cs) e)

command_records :
    (cmd : Command) (arg : Bytes) (cs : List (Command × Bytes)) (next : ℕ → Bytes → ℕ → List Action)
    (w : ℕ) (user : Bytes) (n : ℕ)
    → suc (length cs) ≤ w
    → Loop cs next
    → records (ftp_command cmd arg w user n next) ≡ take (10 - n) (logins user ((cmd, arg) ∷ cs))
unfolding ftp_command logins reply reply_ignored records
command_records cmd arg cs next zero user n h loop = absurd (omega arith)
command_records user_cmd arg cs next (suc w) user n h loop = loop w arg n (omega arith)
command_records pass_cmd arg cs next (suc w) user n h loop =
    record_pass (ltb n 10) n w user arg cs next _ refl (omega arith) loop
command_records quit_cmd arg cs next (suc w) user n h loop = sym (take_nil (10 - n))
command_records empty_cmd arg cs next (suc w) user n h loop = loop (suc w) user n (omega arith)
command_records other_cmd arg cs next (suc w) user n h loop = loop w user n (omega arith)

line_records :
    (f : ℕ) (o : Option (Bytes × Bytes)) (w : ℕ) (user : Bytes) (n : ℕ)
    → ((input : Bytes) → Loop (commands f input) (λ w' user' n'. ftp_loop f w' user' n' input))
    → length (commands_after f o) ≤ w
    → records (
        with_read o (λ line rest.
          ftp_command
            (command_of (split_command line).0)
            (split_command line).1
            w
            user
            n
            (λ w' user' n'. ftp_loop f w' user' n' rest)))
      ≡ take (10 - n) (logins user (commands_after f o))
unfolding records logins
line_records f none w user n loop h = sym (take_nil (10 - n))
line_records f (some (line, rest)) w user n loop h =
    command_records (command_of (split_command line).0) (split_command line).1 (commands f rest) _ w
      user n h (loop rest)

ftp_loop-records :
    (f : ℕ) (input : Bytes) → Loop (commands f input) (λ w user n. ftp_loop f w user n input)
unfolding ftp_loop commands logins records
ftp_loop-records zero input w user n h = sym (take_nil (10 - n))
ftp_loop-records (suc f) input w user n h =
    line_records f (read_line input) w user n (ftp_loop-records f) h

-- Where more writes succeed than there are commands: an FTP session records each PASS with the USER
-- before it since the last PASS, up to QUIT, but only the first ten.
pub handle_ftp_lem :
    (w : ℕ) (input : Bytes)
    → length (commands (suc (length input)) input) < w
    → records (handle_ftp w input)
      ≡ take creds_per_conn_limit (logins [] (commands (suc (length input)) input))
unfolding handle_ftp reply records
handle_ftp_lem zero input h = absurd (omega arith)
handle_ftp_lem (suc w) input h = ftp_loop-records (suc (length input)) input w [] 0 (omega arith)
