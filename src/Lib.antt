-- ===== src/Lib.antt =====
-- AronaOS is an assistant system in which a language model (the cognition core) works beside two
-- guards: a guardian that stops dangerous operations, and a permission system that grants
-- capabilities to purposes. This library models the crates of arona_agy, and of the kernel the
-- file system, its ports of the guards, the scheduler, the frame allocator and the clock. Paths
-- below are from the root of the repository.
--
-- Parts and files:
-- * arona_agy/arona_guardian (Guardian): schema.rs is Guardian.antt, engine.rs is
--   Guardian/Engine.antt. An engine is a list of rules. `evaluate` reports an intervention for
--   each active rule that matches an event, `relax_rule` and `record_false_positive` switch rules
--   off. Guardian/Fires.antt says without the code's tests when a method responds,
--   Guardian/Governance.antt runs any sequence of calls.
-- * arona_agy/arona_permissions (Permissions): schema.rs is Permissions.antt, grant.rs is
--   Permissions/Grant.antt, conflict.rs is Permissions/Conflict.antt, catalog.rs is
--   Permissions/Catalog.antt. Permissions/Lifecycle.antt runs any sequence of operations on a
--   grant.
-- * arona_agy/arona_adaptive (Adaptive): the trust model, related to the history of responses in
--   Adaptive/History.antt.
-- * arona_agy/arona_memory (Memory): schema.rs and recall.rs are Memory.antt, store.rs is
--   Memory/Store.antt, search.rs is Memory/Search.antt.
-- * The files audit.rs of arona_agy/arona_guardian, arona_permissions and arona_adaptive are
--   Audit.antt: they put records into the memory. Audit/Logged.antt finds them there again.
-- * arona_agy/arona_cognition (Cognition, Memory/Context.antt): backend.rs and context.rs;
--   candle_backend.rs is Cognition/Candle.antt (`load`, what it finds in
--   Cognition/Candle/Vocabulary.antt) and Cognition/Candle/Generate.antt (`generate`, an action on the
--   backend).
-- * arona_agy/arona_orchestrator (Orchestrator): a file for each bridge, Confirmation.antt,
--   GuardianGate.antt, and Turn.antt, which calls all the other parts in the order of
--   `handle_permission_request`. Orchestrator/PermissionsBridge/ says without the code's tests which
--   lines of an answer ask for which capabilities.
-- * arona_kernel/src/fat32 (Kernel/Fat32), over a block device that stands for the driver ata.rs.
--   format.rs is Kernel/Fat32.antt (layout and byte order) and Kernel/Fat32/Format.antt; dir.rs is
--   Kernel/Fat32/Table.antt (entries of the table), Free.antt (allocation), Data.antt and Read.antt
--   (the data of a chain), Directory.antt (names, entries, `write_file`) and Lookup.antt
--   (`read_file`). What a write changes is in Entries.antt, Chain.antt, Kept.antt, Stored.antt,
--   Written.antt, Slots.antt, Found.antt and Added.antt; what a read gives back is in
--   ReadBack.antt, ReadLength.antt, Filling.antt, Files.antt, Others.antt, Fresh.antt, Volume.antt and
--   FullRoot.antt. Names.antt, Ended.antt, EnteredBytes.antt and OtherNames.antt follow the entries of
--   other names, Contents.antt and History.antt the files after any sequence of writes; Space.antt,
--   Allocating.antt, RootSpace.antt, Capacity.antt, FormatTotal.antt and Room.antt count what is
--   free, on a device that never fails.
-- * arona_kernel/src/guardian.rs is Kernel/Guardian.antt and Kernel/Guardian/Engine.antt,
--   arona_kernel/src/permissions.rs is Kernel/Permissions.antt, arona_kernel/src/adaptive.rs is
--   Kernel/Adaptive.antt. They are ports of the crates with types of their own: the functions of
--   the files Port.antt turn the kernel's data into the crates', and the theorems there and in
--   Kernel/Guardian/Calls.antt carry what holds of the crates over to the kernel.
-- * arona_kernel/src/scheduler.rs is Kernel/Scheduler.antt, arona_kernel/src/memory.rs is
--   Kernel/Frames.antt, arona_kernel/src/rtc.rs is Kernel/Clock.antt.
-- * arona_kernel/src/context.rs is Kernel/Context.antt: the assembly of `switch_to` is a list of
--   instructions, run on a machine with the registers that it names and a memory of 64-bit words.
-- * arona_kernel/src/main.rs is Kernel/Boot.antt: what `kernel_main` prints from the clock's line on,
--   with the guards, the disk and the files of the parts above, and the lines that `format` prints.
--   What the timer's interrupt and the tasks print is left out.
-- * Prelude and Strings hold what the parts share: tests, lists, results, and the operations of
--   Rust's strings on lists of scalar values.
--
-- A `&mut` argument comes back beside the result, also where the result is an error. A `Uuid` and
-- a `DateTime` are numbers, and what `Uuid::new_v4` and `Utc::now` answer are arguments. A float
-- is its bit pattern with Rust's comparisons; its arithmetic, and the printing and parsing of an
-- f64, are parameters (Arithmetic, Platform). sled, serde_json, lindera and the language model are
-- records of operations (Sled, Serde, Tokenizer, CognitionBackend, Candle, Loader, BlockDevice);
-- Memory/Store.antt and Kernel/Fat32.antt state the laws that the round trips use; serde_json gives back only records
-- with a finite importance, since it writes any other as `null`. A `usize` that counts characters
-- or tokens is a natural number. Most loops are recursion on lists or on the number of ports,
-- clusters, sectors or entries of the range. The two loops along a chain of clusters run on
-- rounds: as many as there are bytes, since each round takes at least one.
--
-- Not modelled: the kernel's access to hardware (ports, interrupts, page tables, its heap) and the
-- part of its boot sequence that sets it up, the opening of the database, and the earlier copy of
-- the crates in arona_workspace.
pub mod Prelude
pub mod Guardian
pub mod Permissions
pub mod Strings
pub mod Adaptive
pub mod Audit
pub mod Cognition
pub mod Memory
pub mod Orchestrator
pub mod Kernel
