-- ===== src/Remote.antt =====
-- internal/remote and internal/remotefs: commands for a shell on the other side of a link.
pub mod Shell
pub mod Words
pub mod Line
pub mod Exec
pub mod Resolve
