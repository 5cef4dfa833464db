-- ===== src/Fslat/Program.antt =====
-- The programs of producers/fslatency/vfslatency-ebpf/src/main.rs as they run on the machine: the
-- bodies that the macro `fslat_probe` gives them, as steps on all maps of
-- producers/fslatency/vfslatency-common/src/maps.rs. The probes run one after another.
pub mod Maintained
pub mod Returning
pub mod Histories
pub mod Numbering
pub mod Waiting
pub mod Separate
pub mod Unmatched
pub mod Courses
use ebpf_ldms.Prelude.{ℕ, List, [], ◌∷◌, Bool, ◌==◌, if◌then◌else◌, ◌≡◌}
use ebpf_ldms.Bpf.Helpers.{Helpers}
use ebpf_ldms.Bpf.HashMap.{HashMap, LruHashMap}
use ebpf_ldms.Bpf.RingBuf.{RingBuf}
use ebpf_ldms.Bpf.Encoder.{Encoder}
use ebpf_ldms.Bpf.ModNum.{ModNum}
use ebpf_ldms.Bpf.Kernel.{Kernel}
use ebpf_ldms.Fslat.Maps.{FsLatencyStats, EntryRec, PidTgid, PathComponent, PathSlice}
use ebpf_ldms.Fslat.Hist.{Prof}
use ebpf_ldms.Fslat.Entry.{EntryTimes, EntryState, EntryResult, try_fslat_entry}
use ebpf_ldms.Fslat.Exit.{ExitTimes, ExitState, ExitResult, try_fslat_exit}
use ebpf_ldms.Fslat.Probes.{
  StatsMap, close_stats, fsync_stats, write_stats, writev_stats, read_stats, readv_stats,
  kread_stats, kwrite_stats, FslatProbe,
}

-- The buffers of one CPU.
pub record Buffers : Type 0 where
  pub pathbuf : List PathSlice
  pub pathbuftmp : List PathComponent

abbrev pub set_cpu : (ℕ → Buffers) → ℕ → Buffers → ℕ → Buffers
set_cpu buffers cpu b c = if c == cpu then b else buffers c

unfoldable pub map_index : StatsMap → ℕ
map_index close_stats = 0
map_index fsync_stats = 1
map_index write_stats = 2
map_index writev_stats = 3
map_index read_stats = 4
map_index readv_stats = 5
map_index kread_stats = 6
map_index kwrite_stats = 7

abbrev pub set_stats :
    (StatsMap → List FsLatencyStats)
    → StatsMap
    → List FsLatencyStats
    → StatsMap
    → List FsLatencyStats
set_stats stats map xs m = if map_index m == map_index map then xs else stats m

-- A run of an entry or an exit program: on which CPU and for which thread, what the clock and the
-- memory read meanwhile, and the arguments in the context.
pub record EntryCall : Type 0 where
  pub cpu : ℕ
  pub pid_tgid : PidTgid
  pub times : EntryTimes
  pub kernel : Kernel
  pub arg : ℕ → ℕ

pub record ExitCall : Type 0 where
  pub pid_tgid : PidTgid
  pub times : ExitTimes
  pub arg : ℕ → ℕ

pub data Event : Type 0 where
  entry : FslatProbe → EntryCall → Event
  exit : FslatProbe → ExitCall → Event

module _ (helpers : Helpers) (h : HashMap ℕ ℕ) (lru : LruHashMap PidTgid EntryRec) (num : ModNum 16)
    (cbor : Encoder) (rings : RingBuf 1024) where
  -- All maps, those of each CPU by its number.
  pub record ProgramMaps : Type 0 where
    pub prof : Prof h
    pub counter : List ℕ
    pub stats : StatsMap → List FsLatencyStats
    pub buffers : ℕ → Buffers
    pub ptrlist : lru.Map
    pub ring : rings.Ring

  -- A program returns a number and leaves the maps, or panics, or its behaviour is undefined.
  pub data Outcome : Type 0 where
    returns : ℕ → ProgramMaps → Outcome
    panicked unspecified : Outcome

  abbrev pub entry_maps : ℕ → ProgramMaps → EntryState h lru
  entry_maps cpu s = record {
    prof = s.prof;
    pathbuf = (s.buffers cpu).pathbuf;
    pathbuftmp = (s.buffers cpu).pathbuftmp;
    ptrlist = s.ptrlist;
  }

  abbrev pub put_entry : ℕ → ProgramMaps → EntryState h lru → ProgramMaps
  put_entry cpu s e = record s {
    prof = e.prof;
    buffers = set_cpu s.buffers cpu (record { pathbuf = e.pathbuf; pathbuftmp = e.pathbuftmp });
    ptrlist = e.ptrlist;
  }

  abbrev pub exit_maps : StatsMap → ProgramMaps → ExitState helpers h lru cbor rings
  exit_maps map s = record {
    prof = s.prof;
    counter = s.counter;
    ptrlist = s.ptrlist;
    stats = s.stats map;
    ring = s.ring;
  }

  abbrev pub put_exit : StatsMap → ProgramMaps → ExitState helpers h lru cbor rings → ProgramMaps
  put_exit map s x = record {
    prof = x.prof;
    counter = x.counter;
    stats = set_stats s.stats map x.stats;
    buffers = s.buffers;
    ptrlist = x.ptrlist;
    ring = x.ring;
  }

  -- The body of `$entry`: the file is the first argument of every probed function.
  unfoldable pub run_entry : FslatProbe → EntryCall → ProgramMaps → Outcome
  run_entry p c s =
      elim (try_fslat_entry h lru num helpers c.kernel c.times c.pid_tgid (c.arg 0)
        (entry_maps c.cpu s)) [
          | EntryResult.ok e ↦ returns 0 (put_entry c.cpu s e)
          | EntryResult.err e ↦ returns 1 (put_entry c.cpu s e)
        ]

  -- The body of `$exit`.
  unfoldable pub run_exit : FslatProbe → ExitCall → ProgramMaps → Outcome
  run_exit p c s =
      elim (try_fslat_exit helpers h lru cbor rings p.function c.times c.pid_tgid (c.arg p.exit_arg)
        (exit_maps p.map s)) [
          | ExitResult.ok x ↦ returns 0 (put_exit p.map s x)
          | ExitResult.err x ↦ returns 1 (put_exit p.map s x)
          | ExitResult.panicked ↦ panicked
          | ExitResult.unspecified ↦ unspecified
        ]

  unfoldable pub run_probe : Event → ProgramMaps → Outcome
  unfolding run_entry run_exit
  run_probe (entry p c) s = run_entry p c s
  run_probe (exit p c) s = run_exit p c s

  -- The maps that runs of programs lead to from the given ones. The latest run stands first.
  pub data Runs (s : ProgramMaps) : List Event → ProgramMaps → Type 0 where
    start : Runs s [] s
    more :
        {es : List Event} {t u : ProgramMaps} {e : Event} {r : ℕ}
        → Runs s es t
        → run_probe e t ≡ returns r u
        → Runs s (e ∷ es) u
