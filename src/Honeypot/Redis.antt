-- ===== src/Honeypot/Redis.antt =====
-- internal/honeypot/redis.go: readRESPCommand and handleRedis. A command is read in each round, and
-- takes a byte at least, so more rounds of fuel than bytes are enough.
pub mod RoundTrip
pub mod Limited
pub mod Ends
use vps_safe_dashboard.Prelude.{
  ℕ, zero, suc, ◌+◌, Bool, true, false, ◌&&◌, ◌||◌, List, [], ◌∷◌, ◌++◌, Bytes, Option, none, some,
  codes, ltb, ◌==◌, list_beq, nat_eq, if◌then◌else◌, length, take,
}
use vps_safe_dashboard.Text.{ℤ, pos, negsuc, atoi}
use vps_safe_dashboard.Text.Spaces.{fields, upper}
use vps_safe_dashboard.Honeypot.{creds_per_conn_limit}
use vps_safe_dashboard.Honeypot.Session.{
  Action, recorded, Captured, captured, hello_auth, reply_ignored, read_full, crlf, with_read,
}
use vps_safe_dashboard.Honeypot.Lines.{read_line}

-- A number out of range, or none, reads as 0.
abbrev pub in_range : Option ℤ → ℕ
in_range (some (pos n)) = if ltb 65536 n then 0 else n
in_range _ = 0

unfoldable pub read_resp_int : Bytes → Option (ℕ × Bytes)
read_resp_int s = elim (read_line s) [
  | none ↦ none
  | some (line, rest) ↦ some (in_range (atoi line), rest)
]

abbrev pub bulk_of : ℕ → Option (Bytes × Bytes) → Option (Bytes × Bytes)
bulk_of n none = none
bulk_of n (some (buf, rest)) = some (take n buf, rest)

abbrev pub sized_bulk : Option (ℕ × Bytes) → Option (Bytes × Bytes)
sized_bulk none = none
sized_bulk (some (n, rest)) = bulk_of n (read_full (n + 2) rest)

unfoldable pub read_resp_bulk : Bytes → Option (Bytes × Bytes)
read_resp_bulk [] = none
read_resp_bulk (c ∷ s) = if c == b'$' then sized_bulk (read_resp_int s) else some ([], s)

-- The elements of an array.
unfoldable pub read_bulks : ℕ → Bytes → Option (List Bytes × Bytes)
read_bulks zero s = some ([], s)
read_bulks (suc n) s = elim (read_resp_bulk s) [
  | none ↦ none
  | some (x, rest) ↦ elim (read_bulks n rest) [
    | none ↦ none
    | some (xs, rest') ↦ some (x ∷ xs, rest')
  ]
]

-- The name in upper case, as runes, and the arguments. Empty for what is malformed.
abbrev pub Command : Type 0
Command = List ℕ × List Bytes

abbrev pub command_of : List Bytes → Command
command_of [] = ([], [])
command_of (x ∷ xs) = (upper x, xs)

abbrev pub command_read : Option (List Bytes × Bytes) → Option (Command × Bytes)
command_read none = none
command_read (some (xs, rest)) = some (command_of xs, rest)

abbrev pub array_of : Option (ℕ × Bytes) → Option (Command × Bytes)
array_of none = none
array_of (some (n, rest)) =
    if n == 0 || ltb 64 n then some (([], []), rest) else command_read (read_bulks n rest)

abbrev pub inline_of : Option (Bytes × Bytes) → Option (Command × Bytes)
inline_of none = none
inline_of (some (line, rest)) = some (command_of (fields line), rest)

unfoldable pub read_resp_command : Bytes → Option (Command × Bytes)
read_resp_command [] = none
read_resp_command (c ∷ s) =
    if c == b'*' then array_of (read_resp_int s) else inline_of (read_line (c ∷ s))

abbrev pub record_some : ℕ → Captured → List Action → List Action
record_some count c next = if ltb count creds_per_conn_limit then recorded c ∷ next else next

abbrev err_line : Bytes → Bytes
err_line text = codes "-ERR " ++ text ++ crlf

-- AUTH <password> or AUTH <user> <password>; `next` is the loop, with the writes left and the count.
unfoldable pub auth_command : List Bytes → ℕ → ℕ → (ℕ → ℕ → List Action) → List Action
auth_command (pass ∷ []) w count next =
    record_some count (captured [] pass)
      (reply_ignored (err_line (codes "invalid password")) w (λ w'. next w' (count + 1)))
auth_command (user ∷ pass ∷ []) w count next =
    record_some count (captured user pass)
      (reply_ignored (err_line (codes "invalid password")) w (λ w'. next w' (count + 1)))
auth_command args w count next =
    reply_ignored (err_line (codes "wrong number of arguments for 'auth' command")) w
      (λ w'. next w' count)

-- HELLO <version> AUTH <user> <password>
unfoldable pub hello_command : List Bytes → ℕ → ℕ → (ℕ → ℕ → List Action) → List Action
hello_command (version ∷ word ∷ user ∷ pass ∷ more) w count next =
    let refused =
      λ (n : ℕ). reply_ignored (err_line (codes "unknown command 'HELLO'")) w (λ w'. next w' n) in
    if list_beq nat_eq (upper word) (codes "AUTH")
    then record_some count (record { username = user; password = pass; extra = hello_auth })
        (refused (count + 1))
    else refused count
hello_command args w count next =
    reply_ignored (err_line (codes "unknown command 'HELLO'")) w (λ w'. next w' count)

unfoldable pub redis_command : Command → ℕ → ℕ → (ℕ → ℕ → List Action) → List Action
redis_command (cmd, args) w count next =
    if list_beq nat_eq cmd (codes "AUTH")
    then auth_command args w count next
    else if list_beq nat_eq cmd (codes "HELLO")
    then hello_command args w count next
    else if list_beq nat_eq cmd (codes "QUIT")
    then reply_ignored (codes "+OK" ++ crlf) w (λ w'. [])
    else reply_ignored (err_line (codes "unknown command")) w (λ w'. next w' count)

unfoldable pub redis_loop : ℕ → ℕ → ℕ → Bytes → List Action
redis_loop zero w count input = []
redis_loop (suc f) w count input =
    with_read (read_resp_command input)
      (λ c rest. redis_command c w count (λ w' count'. redis_loop f w' count' rest))

unfoldable pub handle_redis : ℕ → Bytes → List Action
handle_redis w input = redis_loop (suc (length input)) w 0 input
