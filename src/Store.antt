-- ===== src/Store.antt =====
-- pkg/store: the store that the services share.
pub mod Interface
pub mod Memory
pub mod Gorm
