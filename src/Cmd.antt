-- ===== src/Cmd.antt =====
-- The programs of cmd/, and the functions of package strings that they use.
pub mod Text
pub mod Peers
pub mod Server
pub mod Cli
pub mod Demo
