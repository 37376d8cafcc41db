-- ===== src/Config.antt =====
-- internal/core/config/config.go and validator.go: the configuration and its checks, in files for
-- the sections of the configuration.
pub mod Types
pub mod Loops
pub mod Sections
pub mod Projects
pub mod Wildcards
pub mod Architecture
pub mod Mcp
pub mod Output
pub mod Validate
pub mod Rules
pub mod Examples
