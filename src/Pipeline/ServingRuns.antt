-- ===== src/Pipeline/ServingRuns.antt =====
-- The daemon on the record of a read, with every prefix in UTF-8 and a library that takes every
-- message.
use ebpf_ldms.Prelude.{
  ℕ, ◌≡◌, refl, sym, some_injective, [], ◌∷◌, true, some, codes, zero, suc, min, take, subst, ◌++◌,
  get_elem?, replicate,
}
use ebpf_ldms.Bpf.Helpers.{documented}
use ebpf_ldms.Bpf.ModNum.{remainders}
use ebpf_ldms.Bpf.Encoder.{plain}
use ebpf_ldms.Fslat.Tests.StatsRuns.{hashes, loaded}
use ebpf_ldms.Fslat.Path.Whole.{blank}
use ebpf_ldms.Fslat.Tests.CallRuns.{entries, ring}
use ebpf_ldms.Fslat.Tests.ProgramRuns.{
  idle_maps, ended, a_read, read_runs, idle_maps-IsProgram, a_read-AreEvents,
}
use ebpf_ldms.Pipeline.Utf8.{is_utf8}
use ebpf_ldms.Pipeline.Passing.{AreUtf8, AllAccepted, Passing}
use ebpf_ldms.Pipeline.Serving.{IsUp, settings, begun, main-Passing}
use ebpf_ldms.Daemon.Clock.{current_mono_realtime_offset}
use ebpf_ldms.Daemon.Main.{Startup, exits, main}
use ebpf_ldms.Fslat.Maps.{FsLatencyStats}
use ebpf_ldms.Daemon.Ring.{LoopState}
use ebpf_ldms.Daemon.Stream.{ldms_msg_publish, new, connect, c_string, drop_stream}
use ebpf_ldms.Daemon.Tests.{recorder, opened, options}
use ebpf_ldms.Daemon.RingRuns.{tries, opening}
use ebpf_ldms.Pipeline.Tests.{parsed, crates, at_five, bytes_of-at_five}

unused-AreUtf8 :
    (n i : ℕ) (f : FsLatencyStats)
    → get_elem? (replicate n (record loaded { pathlen = 0; path_prefix = blank })) i ≡ some f
    → is_utf8 (take (min f.pathlen 32) f.path_prefix) ≡ true
unfolding is_utf8
unused-AreUtf8 zero i f e = cc
unused-AreUtf8 (suc n) zero f e =
    subst (λ x. is_utf8 (take (min x.pathlen 32) x.path_prefix) ≡ true) (some_injective _ _ e) refl
unused-AreUtf8 (suc n) (suc i) f e = unused-AreUtf8 n i f e

idle_maps-AreUtf8 : AreUtf8 idle_maps.stats
unfolding is_utf8
idle_maps-AreUtf8 m zero f e =
    subst (λ x. is_utf8 (take (min x.pathlen 32) x.path_prefix) ≡ true) (some_injective _ _ e) refl
idle_maps-AreUtf8 m (suc i) f e = unused-AreUtf8 7 i f e

recorder-AllAccepted : AllAccepted parsed recorder opened
unfolding ldms_msg_publish
recorder-AllAccepted v w = (codes "{}", w ++ (codes "{}" ∷ []), refl, refl)

abbrev seconds : ℕ → ℕ → ℕ
seconds secs subsec = secs

-- The monotonic clock began at second 1000 of the epoch, and the records of the read come.
abbrev startup : Startup
startup = record {
  logger = true;
  rlimit = 1;
  pinned = true;
  opening = opening;
  handler = true;
  items = at_five ended.ring;
}

startup-IsUp : IsUp parsed tries recorder seconds options startup [] opened []
unfolding new connect c_string current_mono_realtime_offset
startup-IsUp = record {
  opened = [];
  logger = refl;
  pinned = refl;
  handler = refl;
  made = refl;
  connected = refl;
  epoch = 1000000000000;
  clocks = refl;
  registered = refl;
}

main-Passing_example :
    let set = settings parsed tries recorder seconds options startup [] 1000000000000 in
    let start = begun parsed tries recorder seconds options startup [] [] in
    (last : LoopState parsed tries recorder) × (main parsed tries recorder seconds options startup
        []
      ≡ exits (drop_stream recorder opened last.world))
    × Passing parsed crates tries recorder set opened idle_maps.stats 41 startup.items start last
unfolding startup-IsUp
main-Passing_example =
    main-Passing parsed tries recorder seconds options startup [] crates documented hashes entries
      remainders plain ring a_read idle_maps ended 41 opened [] idle_maps-IsProgram a_read-AreEvents
      read_runs refl (sym (bytes_of-at_five ended.ring)) idle_maps-AreUtf8 startup-IsUp
      recorder-AllAccepted
