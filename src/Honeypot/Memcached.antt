-- ===== src/Honeypot/Memcached.antt =====
-- internal/honeypot/memcached.go: handleMemcached. What is read after the answer is dropped.
use vps_safe_dashboard.Prelude.{ℕ, List, [], ◌∷◌, ◌++◌, Bytes, codes, take}
use vps_safe_dashboard.Text.Spaces.{trim_space, fields}
use vps_safe_dashboard.Honeypot.Session.{Action, recorded, no_auth, reply_ignored, with_read, crlf}
use vps_safe_dashboard.Honeypot.Lines.{read_line}

-- The command is the first of the fields; a line without any would be a panic.
unfoldable pub first_command : List Bytes → Bytes → ℕ → List Action
first_command [] line w = []
first_command (cmd ∷ args) line w =
    recorded record { username = []; password = []; extra = no_auth cmd (take 256 line) }
    ∷ reply_ignored (codes "ERROR" ++ crlf) w (λ w'. [])

unfoldable pub command_line : Bytes → ℕ → List Action
command_line [] w = []
command_line (c ∷ line) w = first_command (fields (c ∷ line)) (c ∷ line) w

unfoldable pub handle_memcached : ℕ → Bytes → List Action
handle_memcached w input =
    with_read (read_line input) (λ line rest. command_line (trim_space line) w)
