-- ===== src/Server/Middleware.antt =====
-- pkg/server/middleware: who may call the server.
pub mod Node
pub mod Jwt
