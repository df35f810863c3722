-- ===== src/Console.antt =====
-- The console around its pages: the session, the routes and the login page.
mod Tests
pub mod Auth
pub mod Routes
pub mod Shell
pub mod Login
