-- ===== src/Tests.antt =====
-- Concrete inputs, at which the theorems are applied.
pub mod Fixtures
pub mod Stores
pub mod Connections
pub mod Access
pub mod Accounts
pub mod Services
pub mod NodeKeys
pub mod Statuses
pub mod Configs
pub mod Agents
pub mod Sessions
pub mod Routing
pub mod Databases
