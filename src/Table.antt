-- ===== src/Table.antt =====
-- The command table of internal/command/table.go and its dispatch in internal/command/router.go.
pub mod Casing
pub mod Dispatch
