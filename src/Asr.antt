-- ===== src/Asr.antt =====
-- idevicerestore/src/asr.c: the connection to ASR, which asks for parts of the filesystem image to
-- validate it, and then for all of it.
pub mod Link
pub mod Payload
pub mod Validation
mod Runs
