-- ===== src/Tests.antt =====
-- Tests of the definitions at concrete inputs, and instances of the theorems there.
mod Evidence
mod Paths
mod History
mod Context
mod Progress
mod Agent
mod Events
mod Approval
mod Streaming
mod Policy
mod Commands
