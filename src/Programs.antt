-- ===== src/Programs.antt =====
-- cmd: how the two programs are put together and started. The libraries' part of each step is a
-- parameter that says whether the step fails.
pub mod Startup
pub mod Manager
pub mod Server
