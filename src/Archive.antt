-- ===== src/Archive.antt =====
-- internal/archive/archive.go: the monthly copies of the database.
pub mod Months
pub mod Month
pub mod Due
pub mod Exec
