-- ===== src/Fslat/Tests/ProgramRuns.antt =====
-- Runs of the programs of producers/fslatency/vfslatency-ebpf/src/main.rs: reads of /usr/lib/f.
use ebpf_ldms.Prelude.{
  ◌≡◌, refl, arith, List, [], ◌∷◌, ◌==◌, ◌++◌, if◌then◌else◌, some, none, codes, replicate,
}
use ebpf_ldms.Bpf.Helpers.{documented, rounds}
use ebpf_ldms.Bpf.ModNum.{remainders}
use ebpf_ldms.Bpf.Encoder.{plain}
use ebpf_ldms.Fslat.Maps.{EntryRec}
use ebpf_ldms.Fslat.Path.Whole.{blank}
use ebpf_ldms.Fslat.Entry.{try_fslat_entry}
use ebpf_ldms.Fslat.Exit.{try_fslat_exit}
use ebpf_ldms.Fslat.Path.Assembling.{partial_d_path}
use ebpf_ldms.Fslat.Prefix.{starts_with, compare_from}
use ebpf_ldms.Fslat.Message.{
  ringbuf_put, encode_message, ◌>=>◌, str_noncanonical, type_len_noncanonical, to_be_bytes,
  u64_noncanonical,
}
use ebpf_ldms.Fslat.Stats.{take_snapshot, update_stats_locked}
use ebpf_ldms.Fslat.Exit.Prefixes.{KeepsPrefixes}
use ebpf_ldms.Fslat.Probes.{FslatProbe, fslat_probes, read_stats, close_stats}
use ebpf_ldms.Fslat.Program.{
  Event, entry, exit, ExitCall, ProgramMaps, Outcome, returns, panicked, unspecified, run_probe,
  Runs, start, more,
}
use ebpf_ldms.Fslat.Program.Maintained.{IsProgram, IsProbe, IsEvent}
use ebpf_ldms.Fslat.Program.Histories.{AreEvents, Runs-IsProgram, Runs-History}
use ebpf_ldms.Fslat.Program.Numbering.{Continued, Runs-Messages}
use ebpf_ldms.Fslat.Program.Waiting.{Since, Runs-Since}
use ebpf_ldms.Fslat.Program.Separate.{Runs-KeepsPrefixes}
use ebpf_ldms.Fslat.Program.Courses.{Follows}
use ebpf_ldms.Fslat.Program.Courses.Followed.{Runs-Course}
use ebpf_ldms.Fslat.Program.Unmatched.{TakesNothing, Runs-TakesNothing}
use ebpf_ldms.Fslat.Tests.PathRuns.{tree, slots, slots-IsRing, string_at}
use ebpf_ldms.Fslat.Tests.StatsRuns.{hashes, asked, loaded}
use ebpf_ldms.Fslat.Tests.CallRuns.{
  entries, ring, thread, enter_times, exit_times, prefixes, prefixes-AllStats,
}

abbrev read_probe : FslatProbe
read_probe = record {
  entry = codes "vfs_read_entry";
  exit = codes "vfs_read_exit";
  function = codes "vfs_read";
  exit_arg = 4;
  map = read_stats;
}

read_probe-IsProbe : IsProbe read_probe
unfolding fslat_probes
read_probe-IsProbe = (4, refl)

abbrev pub Maps : Type 0
Maps = ProgramMaps documented hashes entries remainders plain ring

abbrev pub idle_maps : Maps
idle_maps = record {
  prof = asked;
  counter = 41 ∷ [];
  stats = λ m. prefixes;
  buffers = λ c. record { pathbuf = blank ∷ []; pathbuftmp = slots };
  ptrlist = λ k. none;
  ring = [];
}

-- The file 5 is /usr/lib/f.
abbrev read_begins : Event
read_begins =
    entry read_probe
      (record { cpu = 2; pid_tgid = thread; times = enter_times; kernel = tree; arg = λ n. 5 })

-- 512 bytes have been read.
abbrev read_exit : ExitCall
read_exit = record { pid_tgid = thread; times = exit_times; arg = λ n. if n == 4 then 512 else 0 }

abbrev read_ends : Event
read_ends = exit read_probe read_exit

abbrev maps_of : Outcome documented hashes entries remainders plain ring → Maps
maps_of (returns r s) = s
maps_of panicked = idle_maps
maps_of unspecified = idle_maps

abbrev begun : Maps
begun = maps_of (run_probe documented hashes entries remainders plain ring read_begins idle_maps)

abbrev waiting : EntryRec
waiting = record { timestamp = 2000000000; path = codes "/usr/lib/f" ++ replicate 22 0 }

read_begins_runs :
    run_probe documented hashes entries remainders plain ring read_begins idle_maps
    ≡ returns 0 begun
unfolding run_probe rounds string_at try_fslat_entry partial_d_path
read_begins_runs = refl

begun_entry : entries.get begun.ptrlist thread ≡ some waiting
unfolding run_probe rounds string_at try_fslat_entry partial_d_path
begun_entry = refl

abbrev pub ended : Maps
ended = maps_of (run_probe documented hashes entries remainders plain ring read_ends begun)

read_ends_runs :
    run_probe documented hashes entries remainders plain ring read_ends begun ≡ returns 0 ended
unfolding run_probe rounds string_at try_fslat_entry partial_d_path try_fslat_exit starts_with
    compare_from ringbuf_put encode_message ◌>=>◌ str_noncanonical type_len_noncanonical to_be_bytes
    u64_noncanonical take_snapshot update_stats_locked
read_ends_runs = refl

ended_counter : ended.counter ≡ 42 ∷ []
unfolding run_probe rounds string_at try_fslat_entry partial_d_path try_fslat_exit starts_with
    compare_from ringbuf_put encode_message ◌>=>◌ str_noncanonical type_len_noncanonical to_be_bytes
    u64_noncanonical take_snapshot update_stats_locked
ended_counter = refl

pub idle_maps-IsProgram : IsProgram documented hashes entries remainders plain ring idle_maps
idle_maps-IsProgram = record {
  counter = (41, refl, omega arith);
  stats = λ m. prefixes-AllStats;
  pathbuf = λ c. refl;
  ring = λ c. slots-IsRing;
  paths = λ k e f. cc;
}

read_ends-IsEvent : IsEvent read_ends
read_ends-IsEvent = (read_probe-IsProbe, omega arith, omega arith)

abbrev pub a_read : List Event
a_read = read_ends ∷ read_begins ∷ []

pub a_read-AreEvents : AreEvents a_read
a_read-AreEvents = (read_ends-IsEvent, (read_probe-IsProbe, tt))

pub read_runs : Runs documented hashes entries remainders plain ring idle_maps a_read ended
read_runs = more (more start read_begins_runs) read_ends_runs

Runs-IsProgram_example :
    (t : Maps) × Runs documented hashes entries remainders plain ring idle_maps a_read t
    × IsProgram documented hashes entries remainders plain ring t
Runs-IsProgram_example =
    Runs-IsProgram documented hashes entries remainders plain ring a_read idle_maps
      idle_maps-IsProgram a_read-AreEvents

Runs-Messages_example : Continued documented hashes entries remainders plain ring idle_maps ended 41
Runs-Messages_example =
    Runs-Messages documented hashes entries remainders plain ring a_read idle_maps ended 41
      idle_maps-IsProgram a_read-AreEvents read_runs refl

Runs-Since_example :
    Since documented hashes entries remainders plain ring thread (read_begins ∷ []) waiting
Runs-Since_example =
    Runs-Since documented hashes entries remainders plain ring (read_begins ∷ []) idle_maps begun
      thread waiting idle_maps-IsProgram (read_probe-IsProbe, tt) (λ j. refl)
      (more start read_begins_runs) begun_entry

Runs-KeepsPrefixes_example : KeepsPrefixes (idle_maps.stats read_stats) (ended.stats read_stats)
Runs-KeepsPrefixes_example =
    Runs-KeepsPrefixes documented hashes entries remainders plain ring read_stats a_read idle_maps
      ended idle_maps-IsProgram a_read-AreEvents read_runs

begun-IsProgram : IsProgram documented hashes entries remainders plain ring begun
begun-IsProgram =
    (Runs-History documented hashes entries remainders plain ring (read_begins ∷ []) idle_maps begun
      idle_maps-IsProgram (read_probe-IsProbe, tt) (more start read_begins_runs)).1

abbrev close_probe : FslatProbe
close_probe = record {
  entry = codes "filp_close_entry";
  exit = codes "filp_close_exit";
  function = codes "filp_close";
  exit_arg = 2;
  map = close_stats;
}

-- The read is over, and with it, for the map, the close within which it ran.
Runs-TakesNothing_example :
    (v : Maps) × (run_probe documented hashes entries remainders plain ring
        (exit close_probe read_exit)
        ended
      ≡ returns 0 v)
    × TakesNothing documented hashes entries remainders plain ring ended v
Runs-TakesNothing_example =
    Runs-TakesNothing documented hashes entries remainders plain ring read_probe close_probe
      read_exit read_exit [] begun ended ended begun-IsProgram read_ends-IsEvent tt tt refl
      (more start read_ends_runs) start

Runs-Course_example :
    Follows documented hashes entries remainders plain ring idle_maps read_stats
      (record loaded { pathlen = 3; path_prefix = b'/' ∷ b'u' ∷ b's' ∷ replicate 29 0 })
      a_read
      (ended.stats read_stats)
      0
Runs-Course_example =
    Runs-Course documented hashes entries remainders plain ring idle_maps read_stats _ a_read ended
      0 idle_maps-IsProgram a_read-AreEvents (λ k. refl) (omega arith) refl read_runs
