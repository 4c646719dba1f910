-- ===== src/Tss.antt =====
-- idevicerestore/src/tss.c: requests for signatures and the answers to them.
pub mod Blob
pub mod Request
pub mod Response
pub mod Search
pub mod Assembly
pub mod Transfer
mod Runs
