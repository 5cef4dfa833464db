-- ===== src/Fslat/Tests/CallRuns.antt =====
-- A call that opens the file /usr/lib/f, from its start to its end, by lib.rs.
use ebpf_ldms.Prelude.{
  ℕ, zero, suc, ◌≡◌, refl, arith, List, [], ◌∷◌, replicate, some, none, get_elem?, codes,
}
use ebpf_ldms.Bpf.Helpers.{documented}
use ebpf_ldms.Bpf.HashMap.{LruHashMap, unbounded_lru}
use ebpf_ldms.Bpf.ModNum.{remainders}
use ebpf_ldms.Bpf.RingBuf.{RingBuf, single}
use ebpf_ldms.Bpf.Encoder.{plain}
use ebpf_ldms.Fslat.Maps.{FsLatencyStats, EntryRec, PidTgid}
use ebpf_ldms.Fslat.Path.Whole.{blank}
use ebpf_ldms.Fslat.Entry.{EntryTimes, EntryState, ok, try_fslat_entry}
use ebpf_ldms.Fslat.Entry.Stored.{IsReady, Entered, entry_of_call, try_fslat_entry-Entered}
use ebpf_ldms.Fslat.Exit.{ExitTimes, ExitState, try_fslat_exit}
use ebpf_ldms.Fslat.Exit.WellFormed.{IsStats, AllStats}
use ebpf_ldms.Fslat.Exit.Whole.{IsState, Exits, checked, try_fslat_exit-Exits}
use ebpf_ldms.Fslat.Exit.Numbers.{After}
use ebpf_ldms.Fslat.Exit.Fates.{Finished, try_fslat_exit-Finished}
use ebpf_ldms.Fslat.Call.{handed, call-Finished}
use ebpf_ldms.Fslat.Tests.PathRuns.{tree, slots, times, slots-IsRing}
use ebpf_ldms.Fslat.Tests.StatsRuns.{loaded, hashes, asked}

abbrev pub entries : LruHashMap PidTgid EntryRec
entries = unbounded_lru EntryRec

abbrev pub ring : RingBuf 1024
ring = single 1024

abbrev pub thread : PidTgid
thread = (7, 7)

abbrev pub enter_times : EntryTimes
enter_times = record { reset = 1; start = 2000000000; path = times; end = 2000000400 }

abbrev pub exit_times : ExitTimes
exit_times = record { reset = 2; now = 2000009000; end = 2000009900 }

abbrev idle : EntryState hashes entries
idle = record { prof = asked; pathbuf = blank ∷ []; pathbuftmp = slots; ptrlist = λ _. none }

-- The prefix "/us", and seven prefixes that are not in use.
abbrev pub prefixes : List FsLatencyStats
prefixes =
    record loaded { pathlen = 3; path_prefix = b'/' ∷ b'u' ∷ b's' ∷ replicate 29 0 }
    ∷ replicate 7 (record loaded { pathlen = 0; path_prefix = blank })

abbrev pub entry : EntryRec
entry = record { timestamp = 2000000000; path = b'/' ∷ b'u' ∷ b's' ∷ b'r' ∷ replicate 28 0 }

abbrev pub watching : ExitState documented hashes entries plain ring
watching = record {
  prof = asked;
  counter = 41 ∷ [];
  ptrlist = λ k. entries.get (λ _. some entry) k;
  stats = prefixes;
  ring = [];
}

unused-IsStats :
    (n i : ℕ) (s : FsLatencyStats)
    → get_elem? (replicate n (record loaded { pathlen = 0; path_prefix = blank })) i ≡ some s
    → IsStats s
unused-IsStats zero i s e = cc
unused-IsStats (suc n) zero s e = ground arith
unused-IsStats (suc n) (suc i) s e = unused-IsStats n i s e

pub prefixes-AllStats : AllStats prefixes
prefixes-AllStats zero s e = ground arith
prefixes-AllStats (suc i) s e = unused-IsStats 7 i s e

pub watching-IsState : IsState documented hashes entries plain ring watching
watching-IsState = record {
  seq = λ n e. ground arith;
  stats = prefixes-AllStats;
  paths = λ k e f. ground arith;
}

idle-IsReady : IsReady hashes entries remainders documented tree idle
idle-IsReady = record { pathbuf = refl; ring = slots-IsRing; paths = λ k e f. cc }

try_fslat_exit-Exits_example :
    Exits documented hashes entries plain ring
      (codes "read")
      exit_times
      thread
      512
      (checked documented hashes entries plain ring 2 watching)
      (try_fslat_exit documented hashes entries plain ring
        (codes "read")
        exit_times
        thread
        512
        watching)
try_fslat_exit-Exits_example =
    try_fslat_exit-Exits documented hashes entries plain ring (codes "read") exit_times thread 512
      watching watching-IsState (omega arith) (omega arith) (omega arith)

try_fslat_exit-Finished_example :
    After documented hashes entries plain ring
      (try_fslat_exit documented hashes entries plain ring
        (codes "read")
        exit_times
        thread
        512
        watching)
      (Finished documented hashes entries plain ring
        (codes "read")
        exit_times
        thread
        512
        entry
        (checked documented hashes entries plain ring 2 watching))
try_fslat_exit-Finished_example =
    try_fslat_exit-Finished documented hashes entries plain ring (codes "read") exit_times thread
      512 watching 41 entry watching-IsState (omega arith) (omega arith) refl refl (omega arith)

try_fslat_entry-Entered_example :
    (s' : EntryState hashes entries) × (try_fslat_entry hashes entries remainders documented tree
        enter_times thread 5 idle
      ≡ ok s')
    × Entered hashes entries remainders documented tree enter_times thread 5 idle s'
try_fslat_entry-Entered_example =
    try_fslat_entry-Entered hashes entries remainders documented tree enter_times thread 5 idle
      idle-IsReady

abbrev call_entry : EntryRec
call_entry = entry_of_call hashes entries remainders documented tree enter_times thread 5

call-Finished_example :
    (s' : EntryState hashes entries) × (try_fslat_entry hashes entries remainders documented tree
        enter_times thread 5 idle
      ≡ ok s')
    × IsReady hashes entries remainders documented tree s'
    × After documented hashes entries plain ring
        (try_fslat_exit documented hashes entries plain ring
          (codes "open")
          exit_times
          thread
          512
          (handed documented hashes entries remainders tree plain ring watching s'))
        (Finished documented hashes entries plain ring
          (codes "open")
          exit_times
          thread
          512
          call_entry
          (checked documented hashes entries plain ring 2
            (handed documented hashes entries remainders tree plain ring watching s')))
call-Finished_example =
    call-Finished documented hashes entries remainders tree plain ring enter_times exit_times thread
      5 512 41 (codes "open") idle watching _ idle-IsReady refl prefixes-AllStats refl (omega arith)
      (omega arith) (omega arith) (omega arith)
