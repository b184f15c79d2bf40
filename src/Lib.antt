-- ===== src/Lib.antt =====
-- WispDisk: the command-line program under cli/src, which creates and deletes RAM disks through a
-- kernel driver.
--
-- The program parses a command line (cli/src/args.rs), opens the driver's adapter and talks to it in
-- messages of a fixed layout (cli/src/protocol.rs, cli/src/driver/windows/adapter). A mutation is
-- reserved first; its reservation is then submitted, queried and, while the driver says that it is
-- only reserved, submitted again until a deadline (cli/src/driver/windows/recovery.rs). A deletion
-- prepares the volumes of the disk before it and restores them when the disk certainly survived
-- (cli/src/driver/windows/volume, cli/src/driver/windows/disk).
--
-- The parts and their files:
--   Args      cli/src/args.rs. `into_command` is `Cli::into_command`, cut where the source nests;
--             Args/Parse holds the `from_str` functions, Args/Display the `Display` implementations,
--             Args/Normalize `normalize_windows_args`.
--   Protocol  cli/src/protocol.rs. Protocol/Wire holds each request's bytes in little-endian order and
--             the reading of each response, padding included; Protocol/Direct has the four messages
--             that the program does not exchange.
--   Errors    anyhow errors as chains, the downcasts that the program makes, `is_unresolved`, and
--             `error_exit_code` of cli/src/driver.rs.
--   Recovery  cli/src/driver/windows/recovery.rs. `RecoveryAttempt` is the trait; the state of the
--             attempt is passed along.
--   Machine   the system calls, the monads `Io` for code without loops and `M` for code with loops,
--             and `poll`, the loop that several waits share.
--   Adapter   cli/src/driver/windows/adapter: Operations is control_operation.rs, Transport is `send`
--             with its checks, Reserved is reserved_operation.rs, Requests and Mutations are the
--             methods of `Adapter` (`query_state` is `state`, `reserve` is `reserve_operation`,
--             `create` is `create_disk`); Discovery is the scan of the SCSI ports,
--             Install is install.rs.
--   Volume    cli/src/driver/windows/volume/mod.rs, with Volume/Identity for the questions of which
--             disk a volume is on, Volume/Letters for the drive letters, Volume/Finder and
--             Volume/Discovery for finder.rs and discovery.rs.
--   Disk      cli/src/driver/windows/disk. For a deletion: Owner finds the adapter (removal.rs),
--             Interfaces and Arrival find the disk (mod.rs, interface_notification.rs), Opening and
--             Deletion are deletion.rs, Removal and Allocation are the parts of `delete_allocation`,
--             Absence is `wait_for_physical_disk_absent`, and Delete puts them together. For a
--             creation: Provisioning is provisioning.rs, its calls in Provisioning/Calls and the whole
--             in Provisioning/Formatting; Creation is creation.rs.
--   Inventory cli/src/driver/windows/inventory.rs, without its printing.
--   Program   the dispatch of a command, of cli/src/driver.rs and cli/src/driver/windows/mod.rs.
--   BuildTool scripts/build-tool/src/main.rs: Options is its command line, Digests and Images are its
--             checks of texts, of embedded bytes and of PE images.
--   Tests     a simulated system, and the theorems at concrete runs on it.
--
-- Windows is a parameter, the record `Windows` of Machine: its state, and one function for each call,
-- which answers and changes the state. What is assumed of it, for termination only, is `HasClock`: the
-- clock does not run backwards, and a sleep lasts as long as it was asked for; and `Lists`: there is a
-- bound on the interfaces that Windows lists of a set. The driver is met only
-- through the answers of the miniport call, of which nothing is assumed.
--
-- Numbers are natural numbers; u32 and u64 arithmetic that can wrap is written with its modulus, and an
-- i32 status is its 32-bit pattern. Strings are lists of code points or code units. Loops run on fuel
-- and yield `none` when it runs out. `resolve_operation` needs 2n + 2 rounds for n waits; the deadline of
-- thirty seconds holds at most 150 waits of 200 milliseconds, so 302 rounds are enough.
-- `wait_for_drive_state` and `wait_for_physical_disk_absent` need 151 rounds for the same timeout. The
-- searches of volumes and of disk interfaces need one round more than Windows lists; the wait for a new
-- disk wakes whenever a disk arrives, so that no number of rounds bounds it, nor a rollback, whose
-- deletions contain this wait.
-- A function that contains several loops runs all of them on the same amount of fuel.
--
-- Not modelled: clap's own parsing; the extraction of the embedded driver package, so that
-- `add_disk` takes the installation as a parameter; the printing of the inventory; process start and
-- logging; what the build tool runs and writes; the kernel driver. The handles of an adapter and of
-- an opened volume are closed by their owners, behind the modelled parts; a handle that is opened
-- for a single query is closed in the model too. Lines that are printed or logged have no
-- counterpart.
pub mod Base
pub mod Args
pub mod Protocol
pub mod Errors
pub mod Recovery
pub mod Machine
pub mod Adapter
pub mod Volume
pub mod Disk
pub mod Inventory
pub mod Program
pub mod BuildTool
mod Tests
