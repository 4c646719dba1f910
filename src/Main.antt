-- ===== src/Main.antt =====
-- `main` of idevicerestore/src/idevicerestore.c, behind and including its options.
pub mod Machine
pub mod Identity
pub mod Course
mod Runs
