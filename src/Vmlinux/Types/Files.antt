-- ===== src/Vmlinux/Types/Files.antt =====
-- The structures of vmlinux.rs: fs_struct and file, with what a file holds.
-- A structure that bindgen names by its place ends in `ty` and its number.
use ebpf_ldms.Vmlinux.Repr.{CType, array, end, struct, union, ◌∶◌, ◌⨾◌}
use ebpf_ldms.Vmlinux.Types.Scalars.{c_int, c_longlong, c_uint, c_ulong, pointer}
use ebpf_ldms.Vmlinux.Types.Dentries.{
  arch_spinlock_t, atomic_t, callback_head, kernel_u32, kernel_u64, kernel_u8, list_head, path,
  raw_spinlock, seqcount_spinlock_t, spinlock_t,
}
use ebpf_ldms.Vmlinux.Types.Mounts.{llist_node}

abbrev pub fs_struct : CType
fs_struct = struct (
    "users" ∶ c_int
    ⨾ "lock" ∶ spinlock_t
    ⨾ "seq" ∶ seqcount_spinlock_t
    ⨾ "umask" ∶ c_int
    ⨾ "in_exec" ∶ c_int
    ⨾ "root" ∶ path
    ⨾ "pwd" ∶ path
    ⨾ end)

abbrev pub file_ty_1 : CType
file_ty_1 =
    union ("f_llist" ∶ llist_node ⨾ "f_rcuhead" ∶ callback_head ⨾ "f_iocb_flags" ∶ c_uint ⨾ end)

abbrev pub uapi_s64 : CType
uapi_s64 = c_longlong

abbrev pub s64 : CType
s64 = uapi_s64

abbrev pub atomic64_t : CType
atomic64_t = struct ("counter" ∶ s64 ⨾ end)

abbrev pub atomic_long_t : CType
atomic_long_t = atomic64_t

abbrev pub fmode_t : CType
fmode_t = c_uint

abbrev pub raw_spinlock_t : CType
raw_spinlock_t = raw_spinlock

abbrev pub optimistic_spin_queue : CType
optimistic_spin_queue = struct ("tail" ∶ atomic_t ⨾ end)

abbrev pub mutex : CType
mutex = struct (
    "owner" ∶ atomic_long_t
    ⨾ "wait_lock" ∶ raw_spinlock_t
    ⨾ "osq" ∶ optimistic_spin_queue
    ⨾ "wait_list" ∶ list_head
    ⨾ end)

abbrev pub kernel_loff_t : CType
kernel_loff_t = c_longlong

abbrev pub loff_t : CType
loff_t = kernel_loff_t

abbrev pub qrwlock_ty_1_ty_1 : CType
qrwlock_ty_1_ty_1 = struct ("wlocked" ∶ kernel_u8 ⨾ "__lstate" ∶ array 3 kernel_u8 ⨾ end)

abbrev pub qrwlock_ty_1 : CType
qrwlock_ty_1 = union ("cnts" ∶ atomic_t ⨾ "__bindgen_anon_1" ∶ qrwlock_ty_1_ty_1 ⨾ end)

abbrev pub qrwlock : CType
qrwlock = struct ("__bindgen_anon_1" ∶ qrwlock_ty_1 ⨾ "wait_lock" ∶ arch_spinlock_t ⨾ end)

abbrev pub arch_rwlock_t : CType
arch_rwlock_t = qrwlock

abbrev pub rwlock_t : CType
rwlock_t = struct ("raw_lock" ∶ arch_rwlock_t ⨾ end)

abbrev pub pid_type : CType
pid_type = c_uint

abbrev pub kernel_uid32_t : CType
kernel_uid32_t = c_uint

abbrev pub uid_t : CType
uid_t = kernel_uid32_t

abbrev pub kuid_t : CType
kuid_t = struct ("val" ∶ uid_t ⨾ end)

abbrev pub fown_struct : CType
fown_struct = struct (
    "lock" ∶ rwlock_t
    ⨾ "pid" ∶ pointer
    ⨾ "pid_type" ∶ pid_type
    ⨾ "uid" ∶ kuid_t
    ⨾ "euid" ∶ kuid_t
    ⨾ "signum" ∶ c_int
    ⨾ end)

abbrev pub file_ra_state : CType
file_ra_state = struct (
    "start" ∶ c_ulong
    ⨾ "size" ∶ c_uint
    ⨾ "async_size" ∶ c_uint
    ⨾ "ra_pages" ∶ c_uint
    ⨾ "mmap_miss" ∶ c_uint
    ⨾ "prev_pos" ∶ loff_t
    ⨾ end)

abbrev pub errseq_t : CType
errseq_t = kernel_u32

abbrev pub file : CType
file = struct (
    "__bindgen_anon_1" ∶ file_ty_1
    ⨾ "f_path" ∶ path
    ⨾ "f_inode" ∶ pointer
    ⨾ "f_op" ∶ pointer
    ⨾ "f_lock" ∶ spinlock_t
    ⨾ "f_count" ∶ atomic_long_t
    ⨾ "f_flags" ∶ c_uint
    ⨾ "f_mode" ∶ fmode_t
    ⨾ "f_pos_lock" ∶ mutex
    ⨾ "f_pos" ∶ loff_t
    ⨾ "f_owner" ∶ fown_struct
    ⨾ "f_cred" ∶ pointer
    ⨾ "f_ra" ∶ file_ra_state
    ⨾ "f_version" ∶ kernel_u64
    ⨾ "f_security" ∶ pointer
    ⨾ "private_data" ∶ pointer
    ⨾ "f_ep" ∶ pointer
    ⨾ "f_mapping" ∶ pointer
    ⨾ "f_wb_err" ∶ errseq_t
    ⨾ "f_sb_err" ∶ errseq_t
    ⨾ end)
