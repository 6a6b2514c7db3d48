-- ===== src/Agent.antt =====
-- agent.py: the agent loop. What is outside the program's control is a parameter: the tools' effects
-- on a world, the cancel flag, the records of the approval gate, and the event sink.
pub mod Record
pub mod Outcome
pub mod Batch
pub mod Recorded
pub mod Ran
pub mod Answered
pub mod Preflight
pub mod Request
pub mod Attempts
