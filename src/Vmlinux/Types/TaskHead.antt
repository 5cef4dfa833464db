-- ===== src/Vmlinux/Types/TaskHead.antt =====
-- The structure task_struct of vmlinux.rs: the fields up to `fs`.
use ebpf_ldms.Vmlinux.Repr.{Fields, array, ◌∶◌, ◌⨾◌}
use ebpf_ldms.Vmlinux.Types.Sched.{
  call_single_node, cpumask_t, plist_node, rb_node, rcu_special, refcount_t, sched_dl_entity,
  sched_entity, sched_info, sched_rt_entity, sched_statistics, thread_info,
}
use ebpf_ldms.Vmlinux.Types.Mounts.{hlist_head}
use ebpf_ldms.Vmlinux.Types.Dentries.{atomic_t, hlist_node, kernel_u64, kernel_u8, list_head}
use ebpf_ldms.Vmlinux.Types.Threads.{
  pid_t, posix_cputimers, posix_cputimers_work, prev_cputime, restart_block, sysv_sem, sysv_shm,
  vtime,
}
use ebpf_ldms.Vmlinux.Types.Scalars.{c_char, c_int, c_uint, c_ulong, c_ushort, pointer, u8}

abbrev pub task_struct_head : Fields → Fields
task_struct_head rest =
    "thread_info" ∶ thread_info
    ⨾ "__state" ∶ c_uint
    ⨾ "saved_state" ∶ c_uint
    ⨾ "stack" ∶ pointer
    ⨾ "usage" ∶ refcount_t
    ⨾ "flags" ∶ c_uint
    ⨾ "ptrace" ∶ c_uint
    ⨾ "on_cpu" ∶ c_int
    ⨾ "wake_entry" ∶ call_single_node
    ⨾ "wakee_flips" ∶ c_uint
    ⨾ "wakee_flip_decay_ts" ∶ c_ulong
    ⨾ "last_wakee" ∶ pointer
    ⨾ "recent_used_cpu" ∶ c_int
    ⨾ "wake_cpu" ∶ c_int
    ⨾ "on_rq" ∶ c_int
    ⨾ "prio" ∶ c_int
    ⨾ "static_prio" ∶ c_int
    ⨾ "normal_prio" ∶ c_int
    ⨾ "rt_priority" ∶ c_uint
    ⨾ "se" ∶ sched_entity
    ⨾ "rt" ∶ sched_rt_entity
    ⨾ "dl" ∶ sched_dl_entity
    ⨾ "sched_class" ∶ pointer
    ⨾ "core_node" ∶ rb_node
    ⨾ "core_cookie" ∶ c_ulong
    ⨾ "core_occupation" ∶ c_uint
    ⨾ "sched_task_group" ∶ pointer
    ⨾ "rcu_tasks_exit_cpu" ∶ c_int
    ⨾ "rcu_tasks_exit_list" ∶ list_head
    ⨾ "_bitfield_align_1" ∶ array 0 u8
    ⨾ "_bitfield_1" ∶ array 24 u8
    ⨾ "stats" ∶ sched_statistics
    ⨾ "preempt_notifiers" ∶ hlist_head
    ⨾ "btrace_seq" ∶ c_uint
    ⨾ "policy" ∶ c_uint
    ⨾ "nr_cpus_allowed" ∶ c_int
    ⨾ "cpus_ptr" ∶ pointer
    ⨾ "user_cpus_ptr" ∶ pointer
    ⨾ "cpus_mask" ∶ cpumask_t
    ⨾ "migration_pending" ∶ pointer
    ⨾ "migration_disabled" ∶ c_ushort
    ⨾ "migration_flags" ∶ c_ushort
    ⨾ "rcu_read_lock_nesting" ∶ c_int
    ⨾ "rcu_read_unlock_special" ∶ rcu_special
    ⨾ "rcu_node_entry" ∶ list_head
    ⨾ "rcu_blocked_node" ∶ pointer
    ⨾ "rcu_tasks_nvcsw" ∶ c_ulong
    ⨾ "rcu_tasks_holdout" ∶ kernel_u8
    ⨾ "rcu_tasks_idx" ∶ kernel_u8
    ⨾ "rcu_tasks_idle_cpu" ∶ c_int
    ⨾ "rcu_tasks_holdout_list" ∶ list_head
    ⨾ "trc_reader_nesting" ∶ c_int
    ⨾ "trc_ipi_to_cpu" ∶ c_int
    ⨾ "trc_reader_special" ∶ rcu_special
    ⨾ "trc_holdout_list" ∶ list_head
    ⨾ "trc_blkd_node" ∶ list_head
    ⨾ "trc_blkd_cpu" ∶ c_int
    ⨾ "sched_info" ∶ sched_info
    ⨾ "tasks" ∶ list_head
    ⨾ "pushable_tasks" ∶ plist_node
    ⨾ "pushable_dl_tasks" ∶ rb_node
    ⨾ "mm" ∶ pointer
    ⨾ "active_mm" ∶ pointer
    ⨾ "exit_state" ∶ c_int
    ⨾ "exit_code" ∶ c_int
    ⨾ "exit_signal" ∶ c_int
    ⨾ "pdeath_signal" ∶ c_int
    ⨾ "jobctl" ∶ c_ulong
    ⨾ "personality" ∶ c_uint
    ⨾ "_bitfield_align_2" ∶ array 0 u8
    ⨾ "_bitfield_2" ∶ array 6 u8
    ⨾ "atomic_flags" ∶ c_ulong
    ⨾ "restart_block" ∶ restart_block
    ⨾ "pid" ∶ pid_t
    ⨾ "tgid" ∶ pid_t
    ⨾ "stack_canary" ∶ c_ulong
    ⨾ "real_parent" ∶ pointer
    ⨾ "parent" ∶ pointer
    ⨾ "children" ∶ list_head
    ⨾ "sibling" ∶ list_head
    ⨾ "group_leader" ∶ pointer
    ⨾ "ptraced" ∶ list_head
    ⨾ "ptrace_entry" ∶ list_head
    ⨾ "thread_pid" ∶ pointer
    ⨾ "pid_links" ∶ array 4 hlist_node
    ⨾ "thread_group" ∶ list_head
    ⨾ "thread_node" ∶ list_head
    ⨾ "vfork_done" ∶ pointer
    ⨾ "set_child_tid" ∶ pointer
    ⨾ "clear_child_tid" ∶ pointer
    ⨾ "worker_private" ∶ pointer
    ⨾ "utime" ∶ kernel_u64
    ⨾ "stime" ∶ kernel_u64
    ⨾ "gtime" ∶ kernel_u64
    ⨾ "prev_cputime" ∶ prev_cputime
    ⨾ "vtime" ∶ vtime
    ⨾ "tick_dep_mask" ∶ atomic_t
    ⨾ "nvcsw" ∶ c_ulong
    ⨾ "nivcsw" ∶ c_ulong
    ⨾ "start_time" ∶ kernel_u64
    ⨾ "start_boottime" ∶ kernel_u64
    ⨾ "min_flt" ∶ c_ulong
    ⨾ "maj_flt" ∶ c_ulong
    ⨾ "posix_cputimers" ∶ posix_cputimers
    ⨾ "posix_cputimers_work" ∶ posix_cputimers_work
    ⨾ "ptracer_cred" ∶ pointer
    ⨾ "real_cred" ∶ pointer
    ⨾ "cred" ∶ pointer
    ⨾ "cached_requested_key" ∶ pointer
    ⨾ "comm" ∶ array 16 c_char
    ⨾ "nameidata" ∶ pointer
    ⨾ "sysvsem" ∶ sysv_sem
    ⨾ "sysvshm" ∶ sysv_shm
    ⨾ "last_switch_count" ∶ c_ulong
    ⨾ "last_switch_time" ∶ c_ulong
    ⨾ "fs" ∶ pointer
    ⨾ rest
