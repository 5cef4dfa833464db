-- ===== src/Vmlinux/Types/Task.antt =====
-- The structure task_struct of vmlinux.rs: the fields behind `fs`, and the whole.
use ebpf_ldms.Vmlinux.Repr.{Fields, CType, array, end, struct, ◌∶◌, ◌⨾◌}
use ebpf_ldms.Vmlinux.Types.Accounts.{
  gfp_t, kmap_ctrl, latency_record, llist_head, nodemask_t, page_frag, seccomp, sigpending,
  sigset_t, syscall_user_dispatch, task_io_accounting, timer_list, tlbflush_unmap_batch,
  wake_q_node,
}
use ebpf_ldms.Vmlinux.Types.Files.{kuid_t, mutex, raw_spinlock_t}
use ebpf_ldms.Vmlinux.Types.Sched.{refcount_t}
use ebpf_ldms.Vmlinux.Types.Dentries.{
  atomic_t, callback_head, kernel_u32, kernel_u64, list_head, seqcount_spinlock_t, spinlock_t,
  uapi_u64,
}
use ebpf_ldms.Vmlinux.Types.Scalars.{
  c_int, c_short, c_uint, c_ulong, c_ulonglong, pointer, u64, u8, usize,
}
use ebpf_ldms.Vmlinux.Types.Threads.{rb_root_cached}
use ebpf_ldms.Vmlinux.Types.Fpu.{thread_struct}
use ebpf_ldms.Vmlinux.Types.TaskHead.{task_struct_head}

abbrev pub task_struct_tail : Fields
task_struct_tail =
    "files" ∶ pointer
    ⨾ "io_uring" ∶ pointer
    ⨾ "nsproxy" ∶ pointer
    ⨾ "signal" ∶ pointer
    ⨾ "sighand" ∶ pointer
    ⨾ "blocked" ∶ sigset_t
    ⨾ "real_blocked" ∶ sigset_t
    ⨾ "saved_sigmask" ∶ sigset_t
    ⨾ "pending" ∶ sigpending
    ⨾ "sas_ss_sp" ∶ c_ulong
    ⨾ "sas_ss_size" ∶ usize
    ⨾ "sas_ss_flags" ∶ c_uint
    ⨾ "task_works" ∶ pointer
    ⨾ "audit_context" ∶ pointer
    ⨾ "loginuid" ∶ kuid_t
    ⨾ "sessionid" ∶ c_uint
    ⨾ "seccomp" ∶ seccomp
    ⨾ "syscall_dispatch" ∶ syscall_user_dispatch
    ⨾ "parent_exec_id" ∶ kernel_u64
    ⨾ "self_exec_id" ∶ kernel_u64
    ⨾ "alloc_lock" ∶ spinlock_t
    ⨾ "pi_lock" ∶ raw_spinlock_t
    ⨾ "wake_q" ∶ wake_q_node
    ⨾ "pi_waiters" ∶ rb_root_cached
    ⨾ "pi_top_task" ∶ pointer
    ⨾ "pi_blocked_on" ∶ pointer
    ⨾ "journal_info" ∶ pointer
    ⨾ "bio_list" ∶ pointer
    ⨾ "plug" ∶ pointer
    ⨾ "reclaim_state" ∶ pointer
    ⨾ "io_context" ∶ pointer
    ⨾ "capture_control" ∶ pointer
    ⨾ "ptrace_message" ∶ c_ulong
    ⨾ "last_siginfo" ∶ pointer
    ⨾ "ioac" ∶ task_io_accounting
    ⨾ "psi_flags" ∶ c_uint
    ⨾ "acct_rss_mem1" ∶ kernel_u64
    ⨾ "acct_vm_mem1" ∶ kernel_u64
    ⨾ "acct_timexpd" ∶ kernel_u64
    ⨾ "mems_allowed" ∶ nodemask_t
    ⨾ "mems_allowed_seq" ∶ seqcount_spinlock_t
    ⨾ "cpuset_mem_spread_rotor" ∶ c_int
    ⨾ "cpuset_slab_spread_rotor" ∶ c_int
    ⨾ "cgroups" ∶ pointer
    ⨾ "cg_list" ∶ list_head
    ⨾ "closid" ∶ kernel_u32
    ⨾ "rmid" ∶ kernel_u32
    ⨾ "robust_list" ∶ pointer
    ⨾ "compat_robust_list" ∶ pointer
    ⨾ "pi_state_list" ∶ list_head
    ⨾ "pi_state_cache" ∶ pointer
    ⨾ "futex_exit_mutex" ∶ mutex
    ⨾ "futex_state" ∶ c_uint
    ⨾ "perf_event_ctxp" ∶ pointer
    ⨾ "perf_event_mutex" ∶ mutex
    ⨾ "perf_event_list" ∶ list_head
    ⨾ "mempolicy" ∶ pointer
    ⨾ "il_prev" ∶ c_short
    ⨾ "pref_node_fork" ∶ c_short
    ⨾ "numa_scan_seq" ∶ c_int
    ⨾ "numa_scan_period" ∶ c_uint
    ⨾ "numa_scan_period_max" ∶ c_uint
    ⨾ "numa_preferred_nid" ∶ c_int
    ⨾ "numa_migrate_retry" ∶ c_ulong
    ⨾ "node_stamp" ∶ kernel_u64
    ⨾ "last_task_numa_placement" ∶ kernel_u64
    ⨾ "last_sum_exec_runtime" ∶ kernel_u64
    ⨾ "numa_work" ∶ callback_head
    ⨾ "numa_group" ∶ pointer
    ⨾ "numa_faults" ∶ pointer
    ⨾ "total_numa_faults" ∶ c_ulong
    ⨾ "numa_faults_locality" ∶ array 3 c_ulong
    ⨾ "numa_pages_migrated" ∶ c_ulong
    ⨾ "rseq" ∶ pointer
    ⨾ "rseq_len" ∶ kernel_u32
    ⨾ "rseq_sig" ∶ kernel_u32
    ⨾ "rseq_event_mask" ∶ c_ulong
    ⨾ "mm_cid" ∶ c_int
    ⨾ "last_mm_cid" ∶ c_int
    ⨾ "migrate_from_cpu" ∶ c_int
    ⨾ "mm_cid_active" ∶ c_int
    ⨾ "cid_work" ∶ callback_head
    ⨾ "tlb_ubc" ∶ tlbflush_unmap_batch
    ⨾ "splice_pipe" ∶ pointer
    ⨾ "task_frag" ∶ page_frag
    ⨾ "delays" ∶ pointer
    ⨾ "make_it_fail" ∶ c_int
    ⨾ "fail_nth" ∶ c_uint
    ⨾ "nr_dirtied" ∶ c_int
    ⨾ "nr_dirtied_pause" ∶ c_int
    ⨾ "dirty_paused_when" ∶ c_ulong
    ⨾ "latency_record_count" ∶ c_int
    ⨾ "latency_record" ∶ array 32 latency_record
    ⨾ "timer_slack_ns" ∶ kernel_u64
    ⨾ "default_timer_slack_ns" ∶ kernel_u64
    ⨾ "curr_ret_stack" ∶ c_int
    ⨾ "curr_ret_depth" ∶ c_int
    ⨾ "ret_stack" ∶ pointer
    ⨾ "ftrace_timestamp" ∶ c_ulonglong
    ⨾ "trace_overrun" ∶ atomic_t
    ⨾ "tracing_graph_pause" ∶ atomic_t
    ⨾ "trace_recursion" ∶ c_ulong
    ⨾ "memcg_in_oom" ∶ pointer
    ⨾ "memcg_oom_gfp_mask" ∶ gfp_t
    ⨾ "memcg_oom_order" ∶ c_int
    ⨾ "memcg_nr_pages_over_high" ∶ c_uint
    ⨾ "active_memcg" ∶ pointer
    ⨾ "throttle_disk" ∶ pointer
    ⨾ "utask" ∶ pointer
    ⨾ "sequential_io" ∶ c_uint
    ⨾ "sequential_io_avg" ∶ c_uint
    ⨾ "kmap_ctrl" ∶ kmap_ctrl
    ⨾ "rcu" ∶ callback_head
    ⨾ "rcu_users" ∶ refcount_t
    ⨾ "pagefault_disabled" ∶ c_int
    ⨾ "oom_reaper_list" ∶ pointer
    ⨾ "oom_reaper_timer" ∶ timer_list
    ⨾ "stack_vm_area" ∶ pointer
    ⨾ "stack_refcount" ∶ refcount_t
    ⨾ "patch_state" ∶ c_int
    ⨾ "security" ∶ pointer
    ⨾ "bpf_storage" ∶ pointer
    ⨾ "bpf_ctx" ∶ pointer
    ⨾ "mce_vaddr" ∶ pointer
    ⨾ "mce_kflags" ∶ uapi_u64
    ⨾ "mce_addr" ∶ kernel_u64
    ⨾ "_bitfield_align_3" ∶ array 0 u64
    ⨾ "_bitfield_3" ∶ array 8 u8
    ⨾ "mce_kill_me" ∶ callback_head
    ⨾ "mce_count" ∶ c_int
    ⨾ "kretprobe_instances" ∶ llist_head
    ⨾ "rethooks" ∶ llist_head
    ⨾ "l1d_flush_kill" ∶ callback_head
    ⨾ "suse_kabi_padding" ∶ pointer
    ⨾ "_bitfield_align_4" ∶ array 0 u8
    ⨾ "_bitfield_4" ∶ array 32 u8
    ⨾ "thread" ∶ thread_struct
    ⨾ end

abbrev pub task_struct_fields : Fields
task_struct_fields = task_struct_head task_struct_tail

abbrev pub task_struct : CType
task_struct = struct task_struct_fields
