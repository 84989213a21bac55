-- ===== src/Egress.antt =====
-- internal/egress: the gate that decides which URLs the controller fetches.
pub mod Glob
pub mod Url
pub mod Validate
pub mod Store
pub mod Policy
