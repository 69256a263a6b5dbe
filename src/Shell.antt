-- ===== src/Shell.antt =====
-- The command interpreter of 2/shell.c, part by part in the order of the source.
pub mod Token
pub mod Lexer
pub mod Logic
pub mod Pipeline
pub mod Redirect
pub mod Exec
mod Tests
