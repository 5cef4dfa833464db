-- ===== src/Vmlinux/Types/Threads.antt =====
-- The structures of vmlinux.rs: what a task holds of its threads and timers.
-- A structure that bindgen names by its place ends in `ty` and its number.
use ebpf_ldms.Vmlinux.Repr.{CType, array, end, struct, union, ◌∶◌, ◌⨾◌}
use ebpf_ldms.Vmlinux.Types.Files.{mutex, raw_spinlock_t}
use ebpf_ldms.Vmlinux.Types.Dentries.{callback_head, kernel_u32, kernel_u64, list_head, seqcount_t}
use ebpf_ldms.Vmlinux.Types.Scalars.{c_int, c_uint, c_ulong, c_ulonglong, pointer}

abbrev pub restart_block_ty_1_ty_1 : CType
restart_block_ty_1_ty_1 = struct (
    "uaddr" ∶ pointer
    ⨾ "val" ∶ kernel_u32
    ⨾ "flags" ∶ kernel_u32
    ⨾ "bitset" ∶ kernel_u32
    ⨾ "time" ∶ kernel_u64
    ⨾ "uaddr2" ∶ pointer
    ⨾ end)

abbrev pub kernel_clockid_t : CType
kernel_clockid_t = c_int

abbrev pub clockid_t : CType
clockid_t = kernel_clockid_t

abbrev pub timespec_type : CType
timespec_type = c_uint

abbrev pub restart_block_ty_1_ty_2_ty_1 : CType
restart_block_ty_1_ty_2_ty_1 = union ("rmtp" ∶ pointer ⨾ "compat_rmtp" ∶ pointer ⨾ end)

abbrev pub restart_block_ty_1_ty_2 : CType
restart_block_ty_1_ty_2 = struct (
    "clockid" ∶ clockid_t
    ⨾ "type_" ∶ timespec_type
    ⨾ "__bindgen_anon_1" ∶ restart_block_ty_1_ty_2_ty_1
    ⨾ "expires" ∶ kernel_u64
    ⨾ end)

abbrev pub restart_block_ty_1_ty_3 : CType
restart_block_ty_1_ty_3 = struct (
    "ufds" ∶ pointer
    ⨾ "nfds" ∶ c_int
    ⨾ "has_timeout" ∶ c_int
    ⨾ "tv_sec" ∶ c_ulong
    ⨾ "tv_nsec" ∶ c_ulong
    ⨾ end)

abbrev pub restart_block_ty_1 : CType
restart_block_ty_1 = union (
    "futex" ∶ restart_block_ty_1_ty_1
    ⨾ "nanosleep" ∶ restart_block_ty_1_ty_2
    ⨾ "poll" ∶ restart_block_ty_1_ty_3
    ⨾ end)

abbrev pub restart_block : CType
restart_block =
    struct ("arch_data" ∶ c_ulong ⨾ "fn_" ∶ pointer ⨾ "__bindgen_anon_1" ∶ restart_block_ty_1 ⨾ end)

abbrev pub kernel_pid_t : CType
kernel_pid_t = c_int

abbrev pub pid_t : CType
pid_t = kernel_pid_t

abbrev pub prev_cputime : CType
prev_cputime = struct ("utime" ∶ kernel_u64 ⨾ "stime" ∶ kernel_u64 ⨾ "lock" ∶ raw_spinlock_t ⨾ end)

abbrev pub vtime_state : CType
vtime_state = c_uint

abbrev pub vtime : CType
vtime = struct (
    "seqcount" ∶ seqcount_t
    ⨾ "starttime" ∶ c_ulonglong
    ⨾ "state" ∶ vtime_state
    ⨾ "cpu" ∶ c_uint
    ⨾ "utime" ∶ kernel_u64
    ⨾ "stime" ∶ kernel_u64
    ⨾ "gtime" ∶ kernel_u64
    ⨾ end)

abbrev pub rb_root : CType
rb_root = struct ("rb_node" ∶ pointer ⨾ end)

abbrev pub rb_root_cached : CType
rb_root_cached = struct ("rb_root" ∶ rb_root ⨾ "rb_leftmost" ∶ pointer ⨾ end)

abbrev pub timerqueue_head : CType
timerqueue_head = struct ("rb_root" ∶ rb_root_cached ⨾ end)

abbrev pub posix_cputimer_base : CType
posix_cputimer_base = struct ("nextevt" ∶ kernel_u64 ⨾ "tqhead" ∶ timerqueue_head ⨾ end)

abbrev pub posix_cputimers : CType
posix_cputimers = struct (
    "bases" ∶ array 3 posix_cputimer_base
    ⨾ "timers_active" ∶ c_uint
    ⨾ "expiry_active" ∶ c_uint
    ⨾ end)

abbrev pub posix_cputimers_work : CType
posix_cputimers_work =
    struct ("work" ∶ callback_head ⨾ "mutex" ∶ mutex ⨾ "scheduled" ∶ c_uint ⨾ end)

abbrev pub sysv_sem : CType
sysv_sem = struct ("undo_list" ∶ pointer ⨾ end)

abbrev pub sysv_shm : CType
sysv_shm = struct ("shm_clist" ∶ list_head ⨾ end)
