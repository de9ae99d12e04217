-- ===== src/Samples.antt =====
-- The instances at which the tests run: a server that keeps its values in a list, formats whose
-- messages are data, and a small database.
pub mod Server
pub mod Formats
pub mod Tables
pub mod Tokens
pub mod Keys
pub mod Clock
