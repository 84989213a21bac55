-- ===== src/Egress/Store.antt =====
-- internal/egress/store.go: the allow/deny rules and the pending queue, kept as JSON files.
pub mod Files
pub mod Rules
pub mod Pending
pub mod Atomic
pub mod Effects
pub mod Held
