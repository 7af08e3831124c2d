-- ===== src/Tests.antt =====
-- Runs of the definitions at concrete inputs, and each theorem applied to one.
mod Events
mod Texts
mod Limits
mod Credentials
mod Firewall
mod Connections
mod Disks
mod Stores
mod Configs
mod Archives
mod Services
