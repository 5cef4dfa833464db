-- ===== src/Fslat/Program/Returning.antt =====
-- A run of a program of producers/fslatency/vfslatency-ebpf/src/main.rs does what the entry or the
-- exit of lib.rs is described to do, and a sequence of runs never stops.
use ebpf_ldms.Prelude.{ℕ, ◌≡◌, refl}
use ebpf_ldms.Bpf.Helpers.{Helpers}
use ebpf_ldms.Bpf.HashMap.{HashMap, LruHashMap}
use ebpf_ldms.Bpf.RingBuf.{RingBuf}
use ebpf_ldms.Bpf.Encoder.{Encoder}
use ebpf_ldms.Bpf.ModNum.{ModNum}
use ebpf_ldms.Fslat.Maps.{EntryRec, PidTgid}
use ebpf_ldms.Fslat.Entry.{EntryState}
use ebpf_ldms.Fslat.Entry.Stored.{Entered, try_fslat_entry-Entered}
use ebpf_ldms.Fslat.Exit.{ExitState, ExitResult, try_fslat_exit, leave}
use ebpf_ldms.Fslat.Exit.Whole.{
  Exits, uncounted, unknown, failing, visited, checked, try_fslat_exit-Exits,
}
use ebpf_ldms.Fslat.Exit.Numbers.{After, set_first}
use ebpf_ldms.Fslat.Probes.{FslatProbe}
use ebpf_ldms.Fslat.Program.Maintained.{
  IsProgram, IsEvent, IsProbe-short, entry_maps-IsReady, put_entry-IsProgram, exit-IsState,
  put_exit-IsProgram, removed_paths,
}
use ebpf_ldms.Fslat.Program.{
  Event, entry, exit, EntryCall, ExitCall, ProgramMaps, returns, entry_maps, put_entry, exit_maps,
  put_exit, run_entry, run_exit, run_probe,
}

module _ (helpers : Helpers) (h : HashMap ℕ ℕ) (lru : LruHashMap PidTgid EntryRec) (num : ModNum 16)
    (cbor : Encoder) (rings : RingBuf 1024) where
  -- What a run of a program does, by the descriptions of the entry and of the exit.
  pub data Happens
      : Event
        → ProgramMaps helpers h lru num cbor rings
        → ProgramMaps helpers h lru num cbor rings
        → Type 0 where
    enters :
        {p : FslatProbe} {c : EntryCall} {s : ProgramMaps helpers h lru num cbor rings}
        {e : EntryState h lru}
        → Entered h lru num helpers c.kernel c.times c.pid_tgid
            (c.arg 0)
            (entry_maps helpers h lru num cbor rings c.cpu s)
            e
        → Happens (entry p c) s (put_entry helpers h lru num cbor rings c.cpu s e)
    leaves :
        {p : FslatProbe} {c : ExitCall} {s : ProgramMaps helpers h lru num cbor rings}
        {x : ExitState helpers h lru cbor rings}
        → Exits helpers h lru cbor rings p.function c.times c.pid_tgid
            (c.arg p.exit_arg)
            (checked helpers h lru cbor rings c.times.reset
              (exit_maps helpers h lru num cbor rings p.map s))
            (ExitResult.ok x)
        → Happens (exit p c) s (put_exit helpers h lru num cbor rings p.map s x)
    fails :
        {p : FslatProbe} {c : ExitCall} {s : ProgramMaps helpers h lru num cbor rings}
        {x : ExitState helpers h lru cbor rings}
        → Exits helpers h lru cbor rings p.function c.times c.pid_tgid
            (c.arg p.exit_arg)
            (checked helpers h lru cbor rings c.times.reset
              (exit_maps helpers h lru num cbor rings p.map s))
            (ExitResult.err x)
        → Happens (exit p c) s (put_exit helpers h lru num cbor rings p.map s x)

  Exits-IsProgram :
      (p : FslatProbe) (c : ExitCall) (s : ProgramMaps helpers h lru num cbor rings)
      (r : ExitResult helpers h lru cbor rings)
      → IsProgram helpers h lru num cbor rings s
      → Exits helpers h lru cbor rings p.function c.times c.pid_tgid
          (c.arg p.exit_arg)
          (checked helpers h lru cbor rings c.times.reset
            (exit_maps helpers h lru num cbor rings p.map s))
          r
      → After helpers h lru cbor rings r (λ x.
        IsProgram helpers h lru num cbor rings (put_exit helpers h lru num cbor rings p.map s x))
  unfolding leave
  Exits-IsProgram p c s r w (uncounted gone) = let (n, at, un) = w.counter in cc
  Exits-IsProgram p c s r w (unknown at none_left) =
      put_exit-IsProgram helpers h lru num cbor rings p.map s _ w w.counter (w.stats p.map) w.paths
  Exits-IsProgram p c s r w (failing at found neg) =
      put_exit-IsProgram helpers h lru num cbor rings p.map s _ w w.counter (w.stats p.map)
        (removed_paths helpers h lru num cbor rings s.ptrlist c.pid_tgid w.paths)
  Exits-IsProgram p c s r w (visited {seq} {e} {t} at found pos visits all us) =
      put_exit-IsProgram helpers h lru num cbor rings p.map s _ w
        (t.seq, set_first s.counter seq t.seq at, us) all
        (removed_paths helpers h lru num cbor rings s.ptrlist c.pid_tgid w.paths)

  -- A run that returns with well-formed maps, having done what is described.
  abbrev pub Returns : Event → ProgramMaps helpers h lru num cbor rings → Type 0
  Returns e s =
      (r : ℕ) × (s' : ProgramMaps helpers h lru num cbor rings) × (run_probe helpers h lru num cbor
          rings e s
        ≡ returns r s')
      × Happens e s s'
      × IsProgram helpers h lru num cbor rings s'

  exit-Returns :
      (p : FslatProbe) (c : ExitCall) (s : ProgramMaps helpers h lru num cbor rings)
      (r : ExitResult helpers h lru cbor rings)
      → try_fslat_exit helpers h lru cbor rings p.function c.times c.pid_tgid
          (c.arg p.exit_arg)
          (exit_maps helpers h lru num cbor rings p.map s)
        ≡ r
      → Exits helpers h lru cbor rings p.function c.times c.pid_tgid
          (c.arg p.exit_arg)
          (checked helpers h lru cbor rings c.times.reset
            (exit_maps helpers h lru num cbor rings p.map s))
          r
      → After helpers h lru cbor rings r (λ x.
        IsProgram helpers h lru num cbor rings (put_exit helpers h lru num cbor rings p.map s x))
      → Returns (exit p c) s
  unfolding run_probe
  exit-Returns p c s (ExitResult.ok x) e ends w = (0, _, rw (run_exit, e), leaves ends, w)
  exit-Returns p c s (ExitResult.err x) e ends w = (1, _, rw (run_exit, e), fails ends, w)
  exit-Returns p c s ExitResult.panicked e ends w = absurd w
  exit-Returns p c s ExitResult.unspecified e ends w = absurd w

  pub run_probe-Returns :
      (e : Event) (s : ProgramMaps helpers h lru num cbor rings)
      → IsProgram helpers h lru num cbor rings s
      → IsEvent e
      → Returns e s
  unfolding run_probe
  run_probe-Returns (entry p c) s w is =
      let (s', runs, entered) =
        try_fslat_entry-Entered h lru num helpers c.kernel c.times c.pid_tgid (c.arg 0)
          (entry_maps helpers h lru num cbor rings c.cpu s)
          (entry_maps-IsReady helpers h lru num cbor rings c s w) in
      (
        0,
        _,
        rw (run_entry, runs),
        enters entered,
        put_entry-IsProgram helpers h lru num cbor rings c s s' w entered.ready,
      )
  run_probe-Returns (exit p c) s w (is, un, ur) =
      let ends =
        try_fslat_exit-Exits helpers h lru cbor rings p.function c.times c.pid_tgid
          (c.arg p.exit_arg) (exit_maps helpers h lru num cbor rings p.map s)
          (exit-IsState helpers h lru num cbor rings p.map s w) (IsProbe-short p is) un ur in
      exit-Returns p c s _ refl ends (Exits-IsProgram p c s _ w ends)
