-- ===== src/Protocol.antt =====
-- internal/protocol: the maildir request/response protocol between the sandbox and Popo.
pub mod Layout
pub mod Names
pub mod Keys
pub mod Mail
pub mod Dispatch
pub mod Drain
pub mod Pool
pub mod Status
