-- ===== src/Agent.antt =====
-- pkg/agent: the program that runs on a node of the mesh.
pub mod System
pub mod Outcomes
pub mod Tasks
pub mod StatusHandler
pub mod Session
pub mod Stream
pub mod Metrics
