-- ===== src/Vmlinux/Types/Sched.antt =====
-- The structures of vmlinux.rs: what a task holds for the scheduler.
-- A structure that bindgen names by its place ends in `ty` and its number.
use ebpf_ldms.Vmlinux.Repr.{CType, array, end, struct, union, ◌∶◌, ◌⨾◌}
use ebpf_ldms.Vmlinux.Types.Scalars.{c_int, c_uint, c_ulong, c_ulonglong, c_ushort, pointer, u8}
use ebpf_ldms.Vmlinux.Types.Dentries.{
  atomic_t, kernel_u16, kernel_u32, kernel_u64, kernel_u8, list_head,
}
use ebpf_ldms.Vmlinux.Types.Files.{s64}
use ebpf_ldms.Vmlinux.Types.Mounts.{llist_node}

abbrev pub thread_info : CType
thread_info = struct (
    "flags" ∶ c_ulong ⨾ "syscall_work" ∶ c_ulong ⨾ "status" ∶ kernel_u32 ⨾ "cpu" ∶ kernel_u32 ⨾ end)

abbrev pub refcount_struct : CType
refcount_struct = struct ("refs" ∶ atomic_t ⨾ end)

abbrev pub refcount_t : CType
refcount_t = refcount_struct

abbrev pub call_single_node_ty_1 : CType
call_single_node_ty_1 = union ("u_flags" ∶ c_uint ⨾ "a_flags" ∶ atomic_t ⨾ end)

abbrev pub call_single_node : CType
call_single_node = struct (
    "llist" ∶ llist_node
    ⨾ "__bindgen_anon_1" ∶ call_single_node_ty_1
    ⨾ "src" ∶ kernel_u16
    ⨾ "dst" ∶ kernel_u16
    ⨾ end)

abbrev pub load_weight : CType
load_weight = struct ("weight" ∶ c_ulong ⨾ "inv_weight" ∶ kernel_u32 ⨾ end)

abbrev pub rb_node : CType
rb_node = struct ("__rb_parent_color" ∶ c_ulong ⨾ "rb_right" ∶ pointer ⨾ "rb_left" ∶ pointer ⨾ end)

abbrev pub util_est : CType
util_est = struct ("enqueued" ∶ c_uint ⨾ "ewma" ∶ c_uint ⨾ end)

abbrev pub sched_avg : CType
sched_avg = struct (
    "last_update_time" ∶ kernel_u64
    ⨾ "load_sum" ∶ kernel_u64
    ⨾ "runnable_sum" ∶ kernel_u64
    ⨾ "util_sum" ∶ kernel_u32
    ⨾ "period_contrib" ∶ kernel_u32
    ⨾ "load_avg" ∶ c_ulong
    ⨾ "runnable_avg" ∶ c_ulong
    ⨾ "util_avg" ∶ c_ulong
    ⨾ "util_est" ∶ util_est
    ⨾ end)

abbrev pub sched_entity : CType
sched_entity = struct (
    "load" ∶ load_weight
    ⨾ "run_node" ∶ rb_node
    ⨾ "group_node" ∶ list_head
    ⨾ "on_rq" ∶ c_uint
    ⨾ "exec_start" ∶ kernel_u64
    ⨾ "sum_exec_runtime" ∶ kernel_u64
    ⨾ "vruntime" ∶ kernel_u64
    ⨾ "prev_sum_exec_runtime" ∶ kernel_u64
    ⨾ "nr_migrations" ∶ kernel_u64
    ⨾ "depth" ∶ c_int
    ⨾ "parent" ∶ pointer
    ⨾ "cfs_rq" ∶ pointer
    ⨾ "my_q" ∶ pointer
    ⨾ "runnable_weight" ∶ c_ulong
    ⨾ "_bitfield_align_1" ∶ array 0 u8
    ⨾ "_bitfield_1" ∶ array 48 u8
    ⨾ "avg" ∶ sched_avg
    ⨾ end)

abbrev pub sched_rt_entity : CType
sched_rt_entity = struct (
    "run_list" ∶ list_head
    ⨾ "timeout" ∶ c_ulong
    ⨾ "watchdog_stamp" ∶ c_ulong
    ⨾ "time_slice" ∶ c_uint
    ⨾ "on_rq" ∶ c_ushort
    ⨾ "on_list" ∶ c_ushort
    ⨾ "back" ∶ pointer
    ⨾ "suse_kabi_padding" ∶ pointer
    ⨾ end)

abbrev pub ktime_t : CType
ktime_t = s64

abbrev pub timerqueue_node : CType
timerqueue_node = struct ("node" ∶ rb_node ⨾ "expires" ∶ ktime_t ⨾ end)

abbrev pub hrtimer : CType
hrtimer = struct (
    "node" ∶ timerqueue_node
    ⨾ "_softexpires" ∶ ktime_t
    ⨾ "function" ∶ pointer
    ⨾ "base" ∶ pointer
    ⨾ "state" ∶ kernel_u8
    ⨾ "is_rel" ∶ kernel_u8
    ⨾ "is_soft" ∶ kernel_u8
    ⨾ "is_hard" ∶ kernel_u8
    ⨾ end)

abbrev pub sched_dl_entity : CType
sched_dl_entity = struct (
    "rb_node" ∶ rb_node
    ⨾ "dl_runtime" ∶ kernel_u64
    ⨾ "dl_deadline" ∶ kernel_u64
    ⨾ "dl_period" ∶ kernel_u64
    ⨾ "dl_bw" ∶ kernel_u64
    ⨾ "dl_density" ∶ kernel_u64
    ⨾ "runtime" ∶ s64
    ⨾ "deadline" ∶ kernel_u64
    ⨾ "flags" ∶ c_uint
    ⨾ "_bitfield_align_1" ∶ array 0 u8
    ⨾ "_bitfield_1" ∶ array 1 u8
    ⨾ "dl_timer" ∶ hrtimer
    ⨾ "inactive_timer" ∶ hrtimer
    ⨾ "pi_se" ∶ pointer
    ⨾ end)

abbrev pub sched_statistics : CType
sched_statistics = struct (
    "wait_start" ∶ kernel_u64
    ⨾ "wait_max" ∶ kernel_u64
    ⨾ "wait_count" ∶ kernel_u64
    ⨾ "wait_sum" ∶ kernel_u64
    ⨾ "iowait_count" ∶ kernel_u64
    ⨾ "iowait_sum" ∶ kernel_u64
    ⨾ "sleep_start" ∶ kernel_u64
    ⨾ "sleep_max" ∶ kernel_u64
    ⨾ "sum_sleep_runtime" ∶ s64
    ⨾ "block_start" ∶ kernel_u64
    ⨾ "block_max" ∶ kernel_u64
    ⨾ "sum_block_runtime" ∶ s64
    ⨾ "exec_max" ∶ kernel_u64
    ⨾ "slice_max" ∶ kernel_u64
    ⨾ "nr_migrations_cold" ∶ kernel_u64
    ⨾ "nr_failed_migrations_affine" ∶ kernel_u64
    ⨾ "nr_failed_migrations_running" ∶ kernel_u64
    ⨾ "nr_failed_migrations_hot" ∶ kernel_u64
    ⨾ "nr_forced_migrations" ∶ kernel_u64
    ⨾ "nr_wakeups" ∶ kernel_u64
    ⨾ "nr_wakeups_sync" ∶ kernel_u64
    ⨾ "nr_wakeups_migrate" ∶ kernel_u64
    ⨾ "nr_wakeups_local" ∶ kernel_u64
    ⨾ "nr_wakeups_remote" ∶ kernel_u64
    ⨾ "nr_wakeups_affine" ∶ kernel_u64
    ⨾ "nr_wakeups_affine_attempts" ∶ kernel_u64
    ⨾ "nr_wakeups_passive" ∶ kernel_u64
    ⨾ "nr_wakeups_idle" ∶ kernel_u64
    ⨾ "core_forceidle_sum" ∶ kernel_u64
    ⨾ "_bitfield_align_1" ∶ array 0 u8
    ⨾ "_bitfield_1" ∶ array 24 u8
    ⨾ end)

abbrev pub cpumask : CType
cpumask = struct ("bits" ∶ array 128 c_ulong ⨾ end)

abbrev pub cpumask_t : CType
cpumask_t = cpumask

abbrev pub rcu_special_ty_1 : CType
rcu_special_ty_1 = struct (
    "blocked" ∶ kernel_u8
    ⨾ "need_qs" ∶ kernel_u8
    ⨾ "exp_hint" ∶ kernel_u8
    ⨾ "need_mb" ∶ kernel_u8
    ⨾ end)

abbrev pub rcu_special : CType
rcu_special = union ("b" ∶ rcu_special_ty_1 ⨾ "s" ∶ kernel_u32 ⨾ end)

abbrev pub sched_info : CType
sched_info = struct (
    "pcount" ∶ c_ulong
    ⨾ "run_delay" ∶ c_ulonglong
    ⨾ "last_arrival" ∶ c_ulonglong
    ⨾ "last_queued" ∶ c_ulonglong
    ⨾ end)

abbrev pub plist_node : CType
plist_node = struct ("prio" ∶ c_int ⨾ "prio_list" ∶ list_head ⨾ "node_list" ∶ list_head ⨾ end)
