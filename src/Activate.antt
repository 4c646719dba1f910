-- ===== src/Activate.antt =====
-- ideviceactivate/src: activates a device with a record of the activation server, or of a file.
pub mod Bench
pub mod Cache
pub mod Record
pub mod Course
mod Runs
