-- ===== src/Fw.antt =====
-- internal/fw: firewall log lines, and the filter that drops events before they are stored.
pub mod Compile
pub mod Parse
pub mod Filter
use vps_safe_dashboard.Prelude.{ℕ}

-- 2 ^ 16 and 2 ^ 32, the limits of ports and addresses
abbrev pub u16_limit : ℕ
u16_limit = 65536

abbrev pub u32_limit : ℕ
u32_limit = 4294967296
