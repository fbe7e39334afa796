-- ===== src/Cli.antt =====
-- tools/arxveil/main.go: the development command line, which starts Docker on the repository.
pub mod Errors
pub mod Flags
pub mod Root
pub mod Commands
pub mod Run
