-- ===== src/Secrets.antt =====
-- internal/engine/secrets/detector.go: the line ranges that a scan reads, and the places it reports.
pub mod Ranges
pub mod Merged
pub mod Position
pub mod Examples
