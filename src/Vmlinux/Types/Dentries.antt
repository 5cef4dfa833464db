-- ===== src/Vmlinux/Types/Dentries.antt =====
-- The structures of vmlinux.rs: path, qstr and dentry, with the locks and lists in them.
-- A structure that bindgen names by its place ends in `ty` and its number.
use ebpf_ldms.Vmlinux.Repr.{CType, array, end, struct, union, ◌∶◌, ◌⨾◌}
use ebpf_ldms.Vmlinux.Types.Scalars.{
  c_int, c_uchar, c_uint, c_ulong, c_ulonglong, c_ushort, pointer,
}

abbrev pub path : CType
path = struct ("mnt" ∶ pointer ⨾ "dentry" ∶ pointer ⨾ end)

abbrev pub uapi_u32 : CType
uapi_u32 = c_uint

abbrev pub kernel_u32 : CType
kernel_u32 = uapi_u32

abbrev pub qstr_ty_1_ty_1 : CType
qstr_ty_1_ty_1 = struct ("hash" ∶ kernel_u32 ⨾ "len" ∶ kernel_u32 ⨾ end)

abbrev pub uapi_u64 : CType
uapi_u64 = c_ulonglong

abbrev pub kernel_u64 : CType
kernel_u64 = uapi_u64

abbrev pub qstr_ty_1 : CType
qstr_ty_1 = union ("__bindgen_anon_1" ∶ qstr_ty_1_ty_1 ⨾ "hash_len" ∶ kernel_u64 ⨾ end)

abbrev pub qstr : CType
qstr = struct ("__bindgen_anon_1" ∶ qstr_ty_1 ⨾ "name" ∶ pointer ⨾ end)

abbrev pub seqcount : CType
seqcount = struct ("sequence" ∶ c_uint ⨾ end)

abbrev pub seqcount_t : CType
seqcount_t = seqcount

abbrev pub seqcount_spinlock : CType
seqcount_spinlock = struct ("seqcount" ∶ seqcount_t ⨾ end)

abbrev pub seqcount_spinlock_t : CType
seqcount_spinlock_t = seqcount_spinlock

abbrev pub hlist_bl_node : CType
hlist_bl_node = struct ("next" ∶ pointer ⨾ "pprev" ∶ pointer ⨾ end)

abbrev pub atomic_t : CType
atomic_t = struct ("counter" ∶ c_int ⨾ end)

abbrev pub uapi_u8 : CType
uapi_u8 = c_uchar

abbrev pub kernel_u8 : CType
kernel_u8 = uapi_u8

abbrev pub qspinlock_ty_1_ty_1 : CType
qspinlock_ty_1_ty_1 = struct ("locked" ∶ kernel_u8 ⨾ "pending" ∶ kernel_u8 ⨾ end)

abbrev pub uapi_u16 : CType
uapi_u16 = c_ushort

abbrev pub kernel_u16 : CType
kernel_u16 = uapi_u16

abbrev pub qspinlock_ty_1_ty_2 : CType
qspinlock_ty_1_ty_2 = struct ("locked_pending" ∶ kernel_u16 ⨾ "tail" ∶ kernel_u16 ⨾ end)

abbrev pub qspinlock_ty_1 : CType
qspinlock_ty_1 = union (
    "val" ∶ atomic_t
    ⨾ "__bindgen_anon_1" ∶ qspinlock_ty_1_ty_1
    ⨾ "__bindgen_anon_2" ∶ qspinlock_ty_1_ty_2
    ⨾ end)

abbrev pub qspinlock : CType
qspinlock = struct ("__bindgen_anon_1" ∶ qspinlock_ty_1 ⨾ end)

abbrev pub arch_spinlock_t : CType
arch_spinlock_t = qspinlock

abbrev pub raw_spinlock : CType
raw_spinlock = struct ("raw_lock" ∶ arch_spinlock_t ⨾ end)

abbrev pub spinlock_ty_1 : CType
spinlock_ty_1 = union ("rlock" ∶ raw_spinlock ⨾ end)

abbrev pub spinlock : CType
spinlock = struct ("__bindgen_anon_1" ∶ spinlock_ty_1 ⨾ end)

abbrev pub spinlock_t : CType
spinlock_t = spinlock

abbrev pub lockref_ty_1_ty_1 : CType
lockref_ty_1_ty_1 = struct ("lock" ∶ spinlock_t ⨾ "count" ∶ c_int ⨾ end)

abbrev pub lockref_ty_1 : CType
lockref_ty_1 = union ("lock_count" ∶ uapi_u64 ⨾ "__bindgen_anon_1" ∶ lockref_ty_1_ty_1 ⨾ end)

abbrev pub lockref : CType
lockref = struct ("__bindgen_anon_1" ∶ lockref_ty_1 ⨾ end)

abbrev pub list_head : CType
list_head = struct ("next" ∶ pointer ⨾ "prev" ∶ pointer ⨾ end)

abbrev pub dentry_ty_1 : CType
dentry_ty_1 = union ("d_lru" ∶ list_head ⨾ "d_wait" ∶ pointer ⨾ end)

abbrev pub hlist_node : CType
hlist_node = struct ("next" ∶ pointer ⨾ "pprev" ∶ pointer ⨾ end)

abbrev pub callback_head : CType
callback_head = struct ("next" ∶ pointer ⨾ "func" ∶ pointer ⨾ end)

abbrev pub dentry_ty_2 : CType
dentry_ty_2 =
    union
      ("d_alias" ∶ hlist_node ⨾ "d_in_lookup_hash" ∶ hlist_bl_node ⨾ "d_rcu" ∶ callback_head ⨾ end)

abbrev pub dentry : CType
dentry = struct (
    "d_flags" ∶ c_uint
    ⨾ "d_seq" ∶ seqcount_spinlock_t
    ⨾ "d_hash" ∶ hlist_bl_node
    ⨾ "d_parent" ∶ pointer
    ⨾ "d_name" ∶ qstr
    ⨾ "d_inode" ∶ pointer
    ⨾ "d_iname" ∶ array 32 c_uchar
    ⨾ "d_lockref" ∶ lockref
    ⨾ "d_op" ∶ pointer
    ⨾ "d_sb" ∶ pointer
    ⨾ "d_time" ∶ c_ulong
    ⨾ "d_fsdata" ∶ pointer
    ⨾ "__bindgen_anon_1" ∶ dentry_ty_1
    ⨾ "d_child" ∶ list_head
    ⨾ "d_subdirs" ∶ list_head
    ⨾ "d_u" ∶ dentry_ty_2
    ⨾ end)
