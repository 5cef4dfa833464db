-- ===== src/Lib.antt =====
-- ebpf_ldms publishes kernel metrics to LDMS. eBPF programs on the entry and the exit of file
-- operations take latencies by path prefix and put a CBOR message for each prefix and window into
-- a ring buffer; a daemon reads the ring, adds a host name and a wall clock time, limits the rate
-- of each producer, and publishes JSON.
--
-- What is modelled, and where:
-- - Fslat/Maps: the constants and structs of producers/fslatency/vfslatency-common/src,
--   constants.rs and maps.rs. A byte is a number below 256, an array is a list, a word is a
--   number that wraps.
-- - Fslat/Path: partial_d_path of lib.rs there, with its callbacks path_walk_step and
--   assemble_pathfrag. Path/Spec describes the path without ring, buffer and counters.
-- - Fslat/Stats, Fslat/Hist, Fslat/Prefix: update_stats_locked and clear_stats_locked;
--   log2_bucket, hist_increment and check_prof_reset; starts_with.
-- - Fslat/Message: ringbuf_put, over the functions that this repository adds to its copy of
--   minicbor. Message/Cbor is a reader by RFC 8949.
-- - Fslat/Entry and Fslat/Exit: try_fslat_entry and try_fslat_exit as functions from the maps
--   they work on to a result and the maps after. Exit/Spec is the relation that the loop over the
--   prefixes implements. Fslat/Call joins the two through PTRLIST.
-- - Fslat/Probes: the probes of producers/fslatency/vfslatency-ebpf/src/main.rs, and their
--   attaching by producers/fslatency/vfslatency/src/main.rs; Fslat/Loader: main there.
-- - Fslat/Program: the bodies of the entry and exit programs of vfslatency-ebpf, as steps on the
--   maps of all CPUs and threads. Program/Histories has sequences of such runs, of any length and
--   order.
-- - Fslat/Counter: the accesses of several CPUs to COUNTER while they publish, as steps that
--   interleave.
-- - Fslat/Lock: the accesses of several CPUs to the statistics of one prefix in try_fslat_exit,
--   the test of the window and the statements under the spin lock, as steps that interleave.
-- - Vmlinux: the structures of producers/fslatency/vfslatency-common/src/vmlinux.rs that a
--   task_struct, a file, a dentry and a mount are made of, field by field. Vmlinux/Repr lays them
--   out as repr(C) does, and Vmlinux/Memory reads their fields in memory of bytes and gives the
--   kernel of Bpf/Kernel that the path walk reads there.
-- - Daemon/Cli: the options of daemon/ebpf_ldms/src/cli.rs and parse_ratelimit.
-- - Daemon/Stream: SockStream of daemon/ldms_stream/src/lib.rs, over the C library that raw.rs
--   there declares.
-- - Daemon/Ring: ring_loop of daemon/ebpf_ldms/src/main.rs as a function from the records of the
--   ring and the state of limiters and library, its loop as serve_items; Ring/Messages is the
--   relation that the loop implements, and Ring/Serving that of its start and the loop.
-- - Daemon/Clock: current_mono_realtime_offset there and the time of a message. Daemon/Main:
--   main.
-- - Pipeline: the programs and ring_loop together, over what the crates ciborium and serde_json
--   make of a message (Pipeline/Crates), and main on the records of the programs
--   (Pipeline/Serving). Pipeline/Utf8 is UTF-8 by RFC 3629.
-- - Fslat/Tests, Vmlinux/Tests, Pipeline/Tests, Pipeline/ServingRuns, Daemon/Tests,
--   Daemon/RingRuns and Daemon/MainRuns: runs on concrete inputs.
-- - Bpf: what is not in the repository or is a copy of another project, as records of operations
--   with their documented laws, each with an instance: the maps and ring of aya, the kernel's
--   helpers, bare_metal_modulo, minicbor, and the kernel's memory by vmlinux.rs.
-- - Prelude: numbers, lists, words and texts that all parts share.
--
-- Bounds: bpf_loop is recursion on the rounds that the source asks for, 64 steps of the walk (which
-- stops after 33 names) and at most 16 components. A path has 32 bytes, a record 1024. The reader
-- of CBOR has fuel 64, which is more than the depth of any message.
--
-- Left out: the structures of vmlinux.rs that the program never reads and its bit field accessors,
-- interleavings inside the runs of two probes on two CPUs but for the counter and the statistics
-- of a prefix (elsewhere runs follow one another, and the lock is a flag that each section takes
-- and releases), the overflow checks of debug builds, tracing, the log of the eBPF programs, and
-- minicbor itself. Reads of kernel memory are taken to succeed: the entry program unwraps their
-- errors unchecked, so that what is said of it holds of runs in which none fails. A wall clock so
-- late that adding a reading of the monotonic clock overflows is left out. The loop of the daemon
-- ends with the records that come until Ctrl-C. Its executor is taken to keep a panic of its task
-- from the rest of the process, and dropping the task to close the stream before the process ends.
pub mod Prelude
pub mod Bpf
pub mod Fslat
pub mod Vmlinux
pub mod Daemon
pub mod Pipeline
