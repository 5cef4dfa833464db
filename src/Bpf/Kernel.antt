-- ===== src/Bpf/Kernel.antt =====
-- The kernel structures of producers/fslatency/vfslatency-common/src/vmlinux.rs that the path walk
-- reads, with the fields that it reads, and the memory that holds them. A pointer is an address.
use ebpf_ldms.Prelude.{ℕ, ◌<◌, List, length}

pub record Qstr : Type 0 where
  pub name : ℕ

pub record Dentry : Type 0 where
  pub d_parent : ℕ
  pub d_name : Qstr

pub record VfsMount : Type 0 where
  pub mnt_root : ℕ

-- The `vfsmount` inside a `mount` is read at its own address.
pub record Mount : Type 0 where
  pub mnt_parent : ℕ
  pub mnt_mountpoint : ℕ

pub record FilePath : Type 0 where
  pub mnt : ℕ
  pub dentry : ℕ

pub record File : Type 0 where
  pub f_path : FilePath

pub record FsStruct : Type 0 where
  pub root : FilePath

pub record TaskStruct : Type 0 where
  pub fs : ℕ

-- What stands at an address, where `bpf_probe_read_kernel` succeeds: a failing read, whose error the
-- source unwraps unchecked, has no value here. `read_str` is `bpf_probe_read_kernel_str_bytes`: the bytes that it
-- returns for a buffer of the given size, which leave room for the closing NUL.
pub record Kernel : Type 0 where
  pub dentry : ℕ → Dentry
  pub vfsmount : ℕ → VfsMount
  pub mount : ℕ → Mount
  pub file : ℕ → File
  pub fs_struct : ℕ → FsStruct
  pub current : TaskStruct
  pub read_str : ℕ → ℕ → List ℕ
  pub read_str-lt : (pointer size : ℕ) → 0 < size → length (read_str pointer size) < size
