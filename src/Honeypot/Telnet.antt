-- ===== src/Honeypot/Telnet.antt =====
-- internal/honeypot/telnet.go: handleTelnet.
use vps_safe_dashboard.Prelude.{ℕ, zero, suc, List, [], ◌∷◌, ◌++◌, Bytes, codes}
use vps_safe_dashboard.Honeypot.{login_rounds_max}
use vps_safe_dashboard.Honeypot.Session.{Action, recorded, captured, reply, crlf, with_read}
use vps_safe_dashboard.Honeypot.Lines.{read_line}

abbrev pub telnet_banner : Bytes
telnet_banner = codes "Ubuntu 22.04.3 LTS" ++ crlf

-- The rounds that are left.
unfoldable pub login_rounds : ℕ → ℕ → Bytes → List Action
login_rounds zero w input = []
login_rounds (suc rounds) w input = reply (codes "login: ") w (λ w1.
    with_read (read_line input) (λ user rest. reply (codes "Password: ") w1 (λ w2.
      with_read (read_line rest) (λ pass rest'.
        recorded (captured user pass)
        ∷ reply (codes "Login incorrect" ++ crlf) w2 (λ w3. login_rounds rounds w3 rest')))))

unfoldable pub handle_telnet : ℕ → Bytes → List Action
handle_telnet w input = reply telnet_banner w (λ w'. login_rounds login_rounds_max w' input)
