-- ===== src/Agent.antt =====
-- internal/agent: the agent, its state, and the environment that its calls reach.
pub mod Exec
pub mod World
pub mod Effects
pub mod Messages
pub mod Simple
pub mod Node
pub mod Tree
pub mod Process
pub mod Approval
pub mod Trace
pub mod Gate
