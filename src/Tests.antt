-- ===== src/Tests.antt =====
-- Runs of the model on concrete inputs, and the theorems applied at inputs that meet their
-- hypotheses.
mod Samples
mod Gate
mod Rules
mod Wire
mod Mailbox
mod Texts
mod Tools
mod Shell
mod Cache
mod Conda
mod Logs
mod Status
mod Settings
mod Drain
