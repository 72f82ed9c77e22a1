-- ===== src/Cli.antt =====
-- crates/pmd/src/main.rs and crates/pmd/src/cli.rs: the command line.
pub mod Epoch
pub mod Calendar
pub mod Print
pub mod Commands
pub mod Start
pub mod Subscriber
