-- ===== src/Api.antt =====
-- pkg/api: the guards of the web API and its administrative routes. fiber and firebase are
-- parameters. And the client of its administrative routes.
pub mod Middleware
pub mod Admin
pub mod Client
pub mod App
mod Tests
