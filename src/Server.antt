-- ===== src/Server.antt =====
-- pkg/server: the middleware and the services of the control server.
pub mod Http
pub mod Routes
pub mod Static
pub mod Middleware
pub mod Services
