-- ===== src/Program.antt =====
-- src/main.cpp: the program. Its output is left out.
pub mod Handler
pub mod Options
pub mod Startup
pub mod Answers
mod Tests
