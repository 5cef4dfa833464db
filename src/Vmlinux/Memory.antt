-- ===== src/Vmlinux/Memory.antt =====
-- Memory as bytes, the fields of a structure in it, and the kernel that the path walk reads there:
-- the raw reads of producers/fslatency/vfslatency-common/src/lib.rs by the structures of vmlinux.rs.
pub mod Layout
use Prim.Native.String.{String}
use ebpf_ldms.Prelude.{
  ℕ, zero, suc, ◌+◌, ◌-◌, ◌*◌, ◌/◌, ◌%◌, ◌^◌, ◌<◌, ◌≤◌, arith, List, [], ◌∷◌, length, Option, some,
  none, leb, ltb, ◌==◌, ◌&&◌, if◌then◌else◌,
}
use ebpf_ldms.Bpf.Kernel.{Kernel}
use ebpf_ldms.Vmlinux.Repr.{CType, Fields, scalar, array, struct, union, end, size_of, place}
use ebpf_ldms.Vmlinux.Types.Dentries.{path, qstr, dentry}
use ebpf_ldms.Vmlinux.Types.Mounts.{vfsmount, mount}
use ebpf_ldms.Vmlinux.Types.Files.{fs_struct, file}
use ebpf_ldms.Vmlinux.Types.Task.{task_struct}

-- The byte at each address.
abbrev pub Memory : Type 0
Memory = ℕ → ℕ

-- A number of `n` bytes, the lowest first.
unfoldable pub load : Memory → ℕ → ℕ → ℕ
load m p zero = 0
load m p (suc n) = m p + 256 * load m (p + 1) n

-- The fields that have offsets of their own: those of a union share their bytes.
abbrev pub fields_of : CType → Fields
fields_of (scalar n) = end
fields_of (array n t) = end
fields_of (struct fs) = fs
fields_of (union fs) = end

-- The offset of a field, as `offset_of!` gives it.
unfoldable pub offset_of : CType → String → ℕ
unfolding place
offset_of t name = elim (place 0 name (fields_of t)) [ none ↦ 0 | some (o, u) ↦ o ]

-- The value of a field of the structure at an address.
unfoldable pub get_field : Memory → CType → String → ℕ → ℕ
unfolding load place
get_field m t name p = elim (place 0 name (fields_of t)) [
  | none ↦ 0
  | some (o, u) ↦ load m (p + o) (size_of u)
]

-- The bytes from an address on, up to a NUL, and at most the given number of them.
unfoldable pub text_at : Memory → ℕ → ℕ → List ℕ
text_at m p zero = []
text_at m p (suc n) = let rest = text_at m (p + 1) n in if m p == 0 then [] else m p ∷ rest

pub length-text_at : (m : Memory) (p n : ℕ) → length (text_at m p n) ≤ n
unfolding text_at
length-text_at m p zero = omega arith
length-text_at m p (suc n) = ground (arith, length-text_at m (p + 1) n)

pub read_str-lt : (m : Memory) (p size : ℕ) → 0 < size → length (text_at m p (size - 1)) < size
read_str-lt m p size h = omega (arith, length-text_at m p (size - 1))

-- The structures at an address, with the fields that the walk reads.
unfoldable pub kernel_of : Memory → ℕ → Kernel
unfolding get_field offset_of text_at
kernel_of m task = record {
  dentry = λ p. record {
    d_parent = get_field m dentry "d_parent" p;
    d_name = record { name = get_field m qstr "name" (p + offset_of dentry "d_name") };
  };
  vfsmount = λ p. record { mnt_root = get_field m vfsmount "mnt_root" p };
  mount = λ p. record {
    mnt_parent = get_field m mount "mnt_parent" p;
    mnt_mountpoint = get_field m mount "mnt_mountpoint" p;
  };
  file = λ p. record {
    f_path = record {
      mnt = get_field m path "mnt" (p + offset_of file "f_path");
      dentry = get_field m path "dentry" (p + offset_of file "f_path");
    };
  };
  fs_struct = λ p. record {
    root = record {
      mnt = get_field m path "mnt" (p + offset_of fs_struct "root");
      dentry = get_field m path "dentry" (p + offset_of fs_struct "root");
    };
  };
  current = record { fs = get_field m task_struct "fs" task };
  read_str = λ p size. text_at m p (size - 1);
  read_str-lt = read_str-lt m;
}
