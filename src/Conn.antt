-- ===== src/Conn.antt =====
-- internal/conn: recording connections, from conntrack events or from differences of snapshots.
pub mod Flows
pub mod Loop
pub mod Snapshots
pub mod SsOutput
pub mod Overrun
