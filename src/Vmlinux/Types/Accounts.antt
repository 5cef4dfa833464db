-- ===== src/Vmlinux/Types/Accounts.antt =====
-- The structures of vmlinux.rs: what a task holds of signals, accounts and memory.
-- A structure that bindgen names by its place ends in `ty` and its number.
use ebpf_ldms.Vmlinux.Repr.{CType, array, end, struct, ◌∶◌, ◌⨾◌}
use ebpf_ldms.Vmlinux.Types.Dentries.{
  atomic_t, hlist_node, kernel_u32, kernel_u64, list_head, uapi_u32,
}
use ebpf_ldms.Vmlinux.Types.Scalars.{bool, c_int, c_uint, c_ulong, pointer}
use ebpf_ldms.Vmlinux.Types.Sched.{cpumask}

abbrev pub sigset_t : CType
sigset_t = struct ("sig" ∶ array 1 c_ulong ⨾ end)

abbrev pub sigpending : CType
sigpending = struct ("list" ∶ list_head ⨾ "signal" ∶ sigset_t ⨾ end)

abbrev pub seccomp : CType
seccomp = struct ("mode" ∶ c_int ⨾ "filter_count" ∶ atomic_t ⨾ "filter" ∶ pointer ⨾ end)

abbrev pub kernel_bool : CType
kernel_bool = bool

abbrev pub syscall_user_dispatch : CType
syscall_user_dispatch = struct (
    "selector" ∶ pointer ⨾ "offset" ∶ c_ulong ⨾ "len" ∶ c_ulong ⨾ "on_dispatch" ∶ kernel_bool ⨾ end)

abbrev pub wake_q_node : CType
wake_q_node = struct ("next" ∶ pointer ⨾ end)

abbrev pub task_io_accounting : CType
task_io_accounting = struct (
    "rchar" ∶ kernel_u64
    ⨾ "wchar" ∶ kernel_u64
    ⨾ "syscr" ∶ kernel_u64
    ⨾ "syscw" ∶ kernel_u64
    ⨾ "read_bytes" ∶ kernel_u64
    ⨾ "write_bytes" ∶ kernel_u64
    ⨾ "cancelled_write_bytes" ∶ kernel_u64
    ⨾ end)

abbrev pub nodemask_t : CType
nodemask_t = struct ("bits" ∶ array 16 c_ulong ⨾ end)

abbrev pub arch_tlbflush_unmap_batch : CType
arch_tlbflush_unmap_batch = struct ("cpumask" ∶ cpumask ⨾ end)

abbrev pub tlbflush_unmap_batch : CType
tlbflush_unmap_batch = struct (
    "arch" ∶ arch_tlbflush_unmap_batch
    ⨾ "flush_required" ∶ kernel_bool
    ⨾ "writable" ∶ kernel_bool
    ⨾ end)

abbrev pub page_frag : CType
page_frag = struct ("page" ∶ pointer ⨾ "offset" ∶ uapi_u32 ⨾ "size" ∶ uapi_u32 ⨾ end)

abbrev pub latency_record : CType
latency_record =
    struct
      ("backtrace" ∶ array 12 c_ulong ⨾ "count" ∶ c_uint ⨾ "time" ∶ c_ulong ⨾ "max" ∶ c_ulong ⨾ end)

abbrev pub gfp_t : CType
gfp_t = c_uint

abbrev pub kmap_ctrl : CType
kmap_ctrl = struct (end)

abbrev pub timer_list : CType
timer_list =
    struct (
      "entry" ∶ hlist_node
      ⨾ "expires" ∶ c_ulong
      ⨾ "function" ∶ pointer
      ⨾ "flags" ∶ kernel_u32
      ⨾ end)

abbrev pub llist_head : CType
llist_head = struct ("first" ∶ pointer ⨾ end)
