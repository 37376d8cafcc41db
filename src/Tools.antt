-- ===== src/Tools.antt =====
-- internal/mcp: the arguments of the tool server's operations, and the operations it allows.
pub mod Texts
pub mod Paths
pub mod Args
pub mod Allowlist
pub mod Examples
