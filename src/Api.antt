-- ===== src/Api.antt =====
-- The requests of the console and the data that they carry: frontend/src/api.
pub mod Types
mod Tests
pub mod Client
pub mod Mutation
