-- ===== src/Honeypot/Rdp/Confirm.antt =====
-- The references of the Connection Confirm.
use vps_safe_dashboard.Prelude.{ℕ, Option, none, some}

some_value : Option ℕ → ℕ
some_value none = 0
some_value (some n) = n
