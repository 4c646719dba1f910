-- ===== src/Lib.antt =====
-- idevicerestore puts an iOS device into restore mode and restores it from a firmware archive. This
-- library models the C code of the directory idevicerestore/src, and that of ideviceactivate/src, a
-- program that activates a device.
--
-- The parts and how they interact:
-- * Main (Main/Machine, Main/Identity, Main/Course): `main` of idevicerestore.c, which finds the device
--   and its mode, reads the build manifest, has the identity signed, extracts the filesystem, and brings
--   the device from its mode into restore mode and restores it. It composes all parts below.
-- * Options (Options.antt): the option loop of `main`.
-- * Identify (Identify.antt): the tables of common.h, `check_device`, `get_bdid`, `get_cpid`, `get_ecid`
--   of idevicerestore.c, `restore_check_device` and `normal_check_device`.
-- * Normal (Normal/Probes, Normal/Connection, Normal/Leaving) and Dfu (Dfu.antt): normal.c and dfu.c, a
--   device in normal or DFU mode. Normal/Probes also has the probes of the modes from recovery.c and
--   restore.c. Devices.antt counts the handles of libimobiledevice that they take and give back.
-- * Files (Files.antt): `write_file` and `read_file` of common.c.
-- * Ipsw (Ipsw.antt): ipsw.c, which takes files out of the firmware archive.
-- * Manifest (Manifest.antt): the build identities of the archive's manifest, from idevicerestore.c. It
--   uses Ipsw for the filesystem and Tss for the SHSH blobs.
-- * Tss (Tss/Request, Tss/Response, Tss/Blob): tss.c, the request to the signing server, its answer, and
--   the blobs in it.
-- * Img3 (Img3.antt, Img3/Parse, Img3/Build, Img3/Signature): img3.c, the signed firmware images.
-- * Signing (Signing.antt): `ipsw_get_component_by_path` of idevicerestore.c, which takes a component by
--   Ipsw, finds its blob by Tss and signs it by Img3.
-- * Asr (Asr/Link, Asr/Payload, Asr/Validation): asr.c, the transfer of the filesystem image.
-- * Recovery (Recovery.antt): recovery.c, the way from recovery mode into restore mode, which sends
--   components by Signing.
-- * Restore (Restore/Session, Restore/Filesystem, Restore/Components, Restore/Messages, Restore/Loop):
--   restore.c, the message loop of a device in restore mode. Its handlers use Asr for the filesystem and
--   Signing for the kernelcache and the NOR. Restore/World holds the states of these parts side by side.
-- * Activate (Activate/Bench, Activate/Cache, Activate/Record, Activate/Course): ideviceactivate, which
--   shares no code with idevicerestore. Cache is cache.c, Record is `activate_fetch_record` of activate.c,
--   Course is ideviceactivate.c with the rest of activate.c and the readers of util.c. Course asks Record
--   for the activation record, and Record keeps in Cache what it posts. Bench is the state they share.
--
-- How the code corresponds. A function keeps its name without the prefix of its file: `parse_file` is
-- `img3_parse_file`, `restore_device` is `restore_device`. A buffer is the list of its bytes, a pointer
-- into it the bytes from there on. A result of -1 is none or false, 0 is some or true, and the output
-- parameters are the value. State is passed on by the monad of Effects.antt, in which a run ends with a
-- value, is a fault (undefined behaviour: a read behind a buffer, a null dereference, a double free, a
-- use of memory that was never written) or is out of fuel. Memory.antt counts the calls of `malloc` and
-- the live blocks; which calls find memory is a parameter. Words.antt has the words of four bytes of an
-- image, Text.antt the strings. Each file `X/Runs.antt` has concrete runs.
--
-- Parameters. The property lists of libplist are the record Plists, with trees as a concrete instance in
-- Plists/Tree.antt; libzip is the record Zip of Ipsw.antt; the HTTP transfer, the ASR socket, restored,
-- lockdownd and the device are arguments, or functions of a count in a state: what the n-th call gives.
-- Messages that come are lists: the packets of ASR, and the rounds of `restore_device`, in each of which
-- the device may also be removed.
--
-- Bounds and fuel. `int` and `uint32_t` keep their wrap-around as remainders by 2^32 and tests against
-- 2^31. The loop of `img3_parse_file` has as much fuel as the buffer has bytes, the loop of
-- `asr_send_payload` as the image has, and the loop of `ipsw_extract_to_file` as the file has, and one
-- more: each round takes a byte at least, unless a read gives none. So does the loop of `read_file` in
-- cache.c, whose buffer has 2^21 bytes.
--
-- Not modelled: printing, which has no result, but for the reports of restore.c and what `main` prints
-- of the manifest; the release of property lists; libirecovery.c and the directories libimobiledevice,
-- libplist, libusbmuxd and the like, which are other projects' libraries that this code calls.
pub mod Activate
pub mod Asr
pub mod Devices
pub mod Dfu
pub mod Effects
pub mod Files
pub mod Identify
pub mod Img3
pub mod Ipsw
pub mod Main
pub mod Manifest
pub mod Memory
pub mod Normal
pub mod Options
pub mod Plists
pub mod Prelude
pub mod Recovery
pub mod Restore
pub mod Signing
pub mod Text
pub mod Tss
pub mod Words
