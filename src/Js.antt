-- ===== src/Js.antt =====
-- The part of the JavaScript language and its standard library that the console uses.
pub mod Number
pub mod Text
pub mod Outcome
pub mod Value
pub mod Int32
pub mod Print
mod Tests
