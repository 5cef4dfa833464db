-- ===== src/Vmlinux/Memory/Layout.antt =====
-- Where the path walk of producers/fslatency/vfslatency-common/src/lib.rs reads in memory: the
-- offsets that the structures of vmlinux.rs have on x86-64.
use ebpf_ldms.Prelude.{ℕ, ◌+◌, ◌≡◌, refl, ap, some, arith, IsU64}
use ebpf_ldms.Bpf.Kernel.{Kernel}
use ebpf_ldms.Vmlinux.Repr.{place}
use ebpf_ldms.Vmlinux.Memory.{Memory, load, fields_of, get_field, offset_of, kernel_of}
use ebpf_ldms.Vmlinux.Types.Mounts.{vfsmount, mount}
use ebpf_ldms.Fslat.Path.Walking.{mnt_offset, mount_of, vfsmount_of}

-- The pointer at an address.
abbrev pointer : Memory → ℕ → ℕ
pointer m p = load m p 8

-- What a kernel reads of the structures at `p` and of the task, where the memory is `m`.
pub record ReadsAt (kernel : Kernel) (m : Memory) (task p : ℕ) : Type 0 where
  pub d_parent : (kernel.dentry p).d_parent ≡ pointer m (p + 24)
  pub name : (kernel.dentry p).d_name.name ≡ pointer m (p + 40)
  pub mnt_root : (kernel.vfsmount p).mnt_root ≡ pointer m p
  pub mnt_parent : (kernel.mount p).mnt_parent ≡ pointer m (p + 16)
  pub mnt_mountpoint : (kernel.mount p).mnt_mountpoint ≡ pointer m (p + 24)
  pub file_mnt : (kernel.file p).f_path.mnt ≡ pointer m (p + 16)
  pub file_dentry : (kernel.file p).f_path.dentry ≡ pointer m (p + 24)
  pub root_mnt : (kernel.fs_struct p).root.mnt ≡ pointer m (p + 24)
  pub root_dentry : (kernel.fs_struct p).root.dentry ≡ pointer m (p + 32)
  pub fs : kernel.current.fs ≡ pointer m (task + 3080)

-- The kernel that reads the fields of the structures of vmlinux.rs, laid out by `#[repr(C)]`, reads
-- the pointers at these offsets: the parent of a dentry at 24 and its name at 40, the root of a
-- `vfsmount` at 0, the parent and the mount point of a `mount` at 16 and 24, the path of a file at
-- 16 and the root of an `fs_struct` at 24, of which each is a mount and behind it a dentry, and the
-- `fs_struct` of a task at 3080.
pub kernel_of-ReadsAt : (m : Memory) (task p : ℕ) → ReadsAt (kernel_of m task) m task p
unfolding kernel_of get_field offset_of
kernel_of-ReadsAt m task p = record {
  d_parent = refl;
  name = ap (pointer m) (omega arith);
  mnt_root = ap (pointer m) (omega arith);
  mnt_parent = refl;
  mnt_mountpoint = refl;
  file_mnt = ap (pointer m) (omega arith);
  file_dentry = ap (pointer m) (omega arith);
  root_mnt = ap (pointer m) (omega arith);
  root_dentry = ap (pointer m) (omega arith);
  fs = refl;
}

-- The subtraction of `mnt_offset` from the address of a `vfsmount` gives the `mount` around it: the
-- field `mnt` of a `mount` at `mnt_offset` is a `vfsmount`, and from the `mount` so found the walk
-- gets back to the address it began with, for each address of 64 bits.
mount_of-mnt :
    (v : ℕ)
    → IsU64 v
    → (place 0 "mnt" (fields_of mount) ≡ some (mnt_offset, vfsmount))
      × (vfsmount_of (mount_of v) ≡ v)
unfolding place
mount_of-mnt v h = (refl, omega (arith, h))
