-- ===== src/Restore.antt =====
-- idevicerestore/src/restore.c: the restore of a device in restore mode.
pub mod Session
pub mod Filesystem
pub mod World
pub mod Components
pub mod Messages
pub mod Loop
pub mod Sample
mod Runs
