-- ===== src/Vmlinux/Tests.antt =====
-- The layout of vmlinux.rs and the accesses by it, on the structures that the path walk reads.
use ebpf_ldms.Prelude.{◌%◌, ◌≡◌, refl}
use ebpf_ldms.Vmlinux.Repr.{size_of}
use ebpf_ldms.Vmlinux.Memory.{Memory, kernel_of}
use ebpf_ldms.Vmlinux.Memory.Layout.{ReadsAt, kernel_of-ReadsAt}
use ebpf_ldms.Vmlinux.Types.Task.{task_struct}

-- Each byte is the lowest of its address.
abbrev numbered : Memory
numbered = λ p. p % 256

task_struct_size : size_of task_struct ≡ 13696
unfolding size_of
task_struct_size = refl

kernel_of-ReadsAt_example : ReadsAt (kernel_of numbered 0x1000) numbered 0x1000 0x2000
kernel_of-ReadsAt_example = kernel_of-ReadsAt numbered 0x1000 0x2000
