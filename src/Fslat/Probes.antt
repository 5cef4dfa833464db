-- ===== src/Fslat/Probes.antt =====
-- The programs of producers/fslatency/vfslatency-ebpf/src/main.rs, and how
-- producers/fslatency/vfslatency/src/main.rs attaches them.
pub mod Attached
use ebpf_ldms.Prelude.{
  same_text, ℕ, List, [], ◌∷◌, ◌++◌, Option, some, none, Bool, if◌then◌else◌, codes,
}

-- The statistics maps, one for each kernel function.
pub data StatsMap : Type 0 where
  close_stats fsync_stats write_stats writev_stats : StatsMap
  read_stats readv_stats kread_stats kwrite_stats : StatsMap

-- The arguments of the macro `fslat_probe`.
pub record FslatProbe : Type 0 where
  pub entry : List ℕ
  pub exit : List ℕ
  pub function : List ℕ
  pub exit_arg : ℕ
  pub map : StatsMap

pub data Kind : Type 0 where
  fentry fexit : Kind

abbrev probe : List ℕ → List ℕ → List ℕ → ℕ → StatsMap → FslatProbe
probe entry exit function exit_arg map = record {
  entry = entry;
  exit = exit;
  function = function;
  exit_arg = exit_arg;
  map = map;
}

unfoldable pub fslat_probes : List FslatProbe
fslat_probes =
    probe (codes "filp_close_entry") (codes "filp_close_exit") (codes "filp_close") 2 close_stats
    ∷ probe (codes "vfs_fsync_range_entry") (codes "vfs_fsync_range_exit") (codes "vfs_fsync_range")
        4 fsync_stats
    ∷ probe (codes "vfs_write_entry") (codes "vfs_write_exit") (codes "vfs_write") 4 write_stats
    ∷ probe (codes "vfs_writev_entry") (codes "vfs_writev_exit") (codes "vfs_writev") 5 writev_stats
    ∷ probe (codes "vfs_read_entry") (codes "vfs_read_exit") (codes "vfs_read") 4 read_stats
    ∷ probe (codes "vfs_readv_entry") (codes "vfs_readv_exit") (codes "vfs_readv") 5 readv_stats
    ∷ probe (codes "kernel_read_entry") (codes "kernel_read_exit") (codes "kernel_read") 4
        kread_stats
    ∷ probe (codes "kernel_write_entry") (codes "kernel_write_exit") (codes "kernel_write") 4
        kwrite_stats
    ∷ []

-- The two programs that the macro declares, by their names.
unfoldable pub programs : List FslatProbe → List (List ℕ × Kind)
programs [] = []
programs (p ∷ ps) = (p.entry, fentry) ∷ (p.exit, fexit) ∷ programs ps

unfoldable pub program_mut : List (List ℕ × Kind) → List ℕ → Option Kind
unfolding same_text
program_mut [] name = none
program_mut ((n, k) ∷ ps) name =
    let rest = program_mut ps name in if same_text n name then some k else rest

-- The table of the loader: an entry program, an exit program and a kernel function.
unfoldable pub probes : List (List ℕ × List ℕ × List ℕ)
probes =
    (codes "filp_close_entry", codes "filp_close_exit", codes "filp_close")
    ∷ (codes "vfs_fsync_range_entry", codes "vfs_fsync_range_exit", codes "vfs_fsync_range")
    ∷ (codes "vfs_write_entry", codes "vfs_write_exit", codes "vfs_write")
    ∷ (codes "vfs_writev_entry", codes "vfs_writev_exit", codes "vfs_writev")
    ∷ (codes "vfs_read_entry", codes "vfs_read_exit", codes "vfs_read")
    ∷ (codes "vfs_readv_entry", codes "vfs_readv_exit", codes "vfs_readv")
    ∷ (codes "kernel_read_entry", codes "kernel_read_exit", codes "kernel_read")
    ∷ (codes "kernel_write_entry", codes "kernel_write_exit", codes "kernel_write")
    ∷ []

-- The crate aya, as the loader calls it: loading a program for a kernel function and attaching it
-- may fail.
pub record Aya : Type 1 where
  pub World : Type 0
  pub load : List ℕ → Kind → List ℕ → World → Option World
  pub attach : List ℕ → World → Option World

module _ (aya : Aya) where
  -- `panics` is an unwrap of a program that is not there.
  pub data Outcome : Type 0 where
    attached failed : aya.World → Outcome
    panics : Outcome

  unfoldable pub start_program : Kind → List ℕ → List ℕ → aya.World → Outcome
  start_program k name kernel_fn w = elim (aya.load name k kernel_fn w) [
    | none ↦ failed w
    | some w' ↦ elim (aya.attach name w') [ none ↦ failed w' | some w'' ↦ attached w'' ]
  ]

  module _ (ebpf : List (List ℕ × Kind)) where
    -- A program of the other kind is an error of the conversion.
    unfoldable pub attach_fentry : List ℕ → List ℕ → aya.World → Outcome
    unfolding program_mut start_program
    attach_fentry prog_name kernel_fn w = elim (program_mut ebpf prog_name) [
      | none ↦ panics
      | some fentry ↦ start_program fentry prog_name kernel_fn w
      | some fexit ↦ failed w
    ]

    unfoldable pub attach_fexit : List ℕ → List ℕ → aya.World → Outcome
    unfolding program_mut start_program
    attach_fexit prog_name kernel_fn w = elim (program_mut ebpf prog_name) [
      | none ↦ panics
      | some fentry ↦ failed w
      | some fexit ↦ start_program fexit prog_name kernel_fn w
    ]

    unfoldable pub attach_probe_pair : List ℕ × List ℕ × List ℕ → aya.World → Outcome
    unfolding attach_fentry attach_fexit
    attach_probe_pair (entry, exit, kernel_fn) w = elim (attach_fentry entry kernel_fn w) [
      | attached w' ↦ attach_fexit exit kernel_fn w'
      | failed w' ↦ failed w'
      | panics ↦ panics
    ]

    -- The loop of `main`.
    unfoldable pub attach_all : List (List ℕ × List ℕ × List ℕ) → aya.World → Outcome
    unfolding attach_probe_pair
    attach_all [] w = attached w
    attach_all (p ∷ ps) w = elim (attach_probe_pair p w) [
      | attached w' ↦ attach_all ps w'
      | failed w' ↦ failed w'
      | panics ↦ panics
    ]
