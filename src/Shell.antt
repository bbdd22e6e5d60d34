-- ===== src/Shell.antt =====
-- bin/sh: the shell. Reader is the loop of `main`, Process the splitting of a line and the dispatch
-- of `process`, Builtins the table and the built-in commands, Lookup the search of the path.
pub mod Reader
pub mod Split
pub mod World
pub mod Lookup
pub mod Builtins
pub mod Process
pub mod Session
mod Tests
