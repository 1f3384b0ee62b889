-- ===== src/Server/Services.antt =====
-- pkg/server/services: what the server does for users, nodes and their tasks.
pub mod Users
pub mod Tasks
pub mod Nodes
pub mod Statuses
pub mod Configs
