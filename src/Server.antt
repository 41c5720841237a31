-- ===== src/Server.antt =====
-- main.go: the configuration's routes and the handler that serves them.
pub mod Env
pub mod Monitor
pub mod Files
pub mod Proxies
pub mod ApiRoutes
pub mod Routes
