-- ===== src/Vmlinux/Types/Fpu.antt =====
-- The structures of vmlinux.rs: the processor state of a task.
-- A structure that bindgen names by its place ends in `ty` and its number.
use ebpf_ldms.Vmlinux.Repr.{CType, array, end, struct, ◌∶◌, ◌⨾◌}
use ebpf_ldms.Vmlinux.Types.Scalars.{c_uint, c_ulong, c_ushort, pointer, u64, u8, union_field}
use ebpf_ldms.Vmlinux.Types.Dentries.{kernel_u16, kernel_u32, kernel_u64}

abbrev pub desc_struct : CType
desc_struct = struct (
    "limit0" ∶ kernel_u16
    ⨾ "base0" ∶ kernel_u16
    ⨾ "_bitfield_align_1" ∶ array 0 u8
    ⨾ "_bitfield_1" ∶ array 4 u8
    ⨾ end)

abbrev pub thread_shstk : CType
thread_shstk = struct ("base" ∶ kernel_u64 ⨾ "size" ∶ kernel_u64 ⨾ end)

abbrev pub fpu_state_perm : CType
fpu_state_perm =
    struct
      ("__state_perm" ∶ kernel_u64 ⨾ "__state_size" ∶ c_uint ⨾ "__user_state_size" ∶ c_uint ⨾ end)

abbrev pub fpregs_state : CType
fpregs_state = struct (
    "fsave" ∶ union_field
    ⨾ "fxsave" ∶ union_field
    ⨾ "soft" ∶ union_field
    ⨾ "xsave" ∶ union_field
    ⨾ "__padding" ∶ union_field
    ⨾ "bindgen_union_field" ∶ array 512 u64
    ⨾ end)

abbrev pub fpstate : CType
fpstate = struct (
    "size" ∶ c_uint
    ⨾ "user_size" ∶ c_uint
    ⨾ "xfeatures" ∶ kernel_u64
    ⨾ "user_xfeatures" ∶ kernel_u64
    ⨾ "xfd" ∶ kernel_u64
    ⨾ "_bitfield_align_1" ∶ array 0 u8
    ⨾ "_bitfield_1" ∶ array 32 u8
    ⨾ "regs" ∶ fpregs_state
    ⨾ end)

abbrev pub fpu : CType
fpu = struct (
    "last_cpu" ∶ c_uint
    ⨾ "avx512_timestamp" ∶ c_ulong
    ⨾ "fpstate" ∶ pointer
    ⨾ "__task_fpstate" ∶ pointer
    ⨾ "perm" ∶ fpu_state_perm
    ⨾ "guest_perm" ∶ fpu_state_perm
    ⨾ "__fpstate" ∶ fpstate
    ⨾ end)

abbrev pub thread_struct : CType
thread_struct = struct (
    "tls_array" ∶ array 3 desc_struct
    ⨾ "sp" ∶ c_ulong
    ⨾ "es" ∶ c_ushort
    ⨾ "ds" ∶ c_ushort
    ⨾ "fsindex" ∶ c_ushort
    ⨾ "gsindex" ∶ c_ushort
    ⨾ "fsbase" ∶ c_ulong
    ⨾ "gsbase" ∶ c_ulong
    ⨾ "ptrace_bps" ∶ array 4 pointer
    ⨾ "virtual_dr6" ∶ c_ulong
    ⨾ "ptrace_dr7" ∶ c_ulong
    ⨾ "cr2" ∶ c_ulong
    ⨾ "trap_nr" ∶ c_ulong
    ⨾ "error_code" ∶ c_ulong
    ⨾ "io_bitmap" ∶ pointer
    ⨾ "iopl_emul" ∶ c_ulong
    ⨾ "_bitfield_align_1" ∶ array 0 u8
    ⨾ "_bitfield_1" ∶ array 1 u8
    ⨾ "pkru" ∶ kernel_u32
    ⨾ "features" ∶ c_ulong
    ⨾ "features_locked" ∶ c_ulong
    ⨾ "shstk" ∶ thread_shstk
    ⨾ "_bitfield_align_2" ∶ array 0 u8
    ⨾ "_bitfield_2" ∶ array 8 u8
    ⨾ "fpu" ∶ fpu
    ⨾ end)
