-- ===== src/Normal.antt =====
-- idevicerestore/src/normal.c: a device in normal mode. `normal_check_device` is with the identification.
pub mod Probes
pub mod Connection
pub mod Leaving
mod Runs
