-- ===== src/Fslat/Program/Unmatched.antt =====
-- Exits of the programs of producers/fslatency/vfslatency-ebpf/src/main.rs that find no entry of
-- their thread, such as that of a call within which another probed call has ended.
use ebpf_ldms.Prelude.{
  ℕ, ◌≡◌, refl, sym, ap, ◌∙◌, subst, inl, inr, List, [], ◌∷◌, none, Bool-cases, ◌==◌, ==_iff,
}
use ebpf_ldms.Fslat.Entry.Stored.{PidTgid-cases}
use ebpf_ldms.Fslat.Program.Separate.{map_index_injective}
use ebpf_ldms.Bpf.Helpers.{Helpers}
use ebpf_ldms.Bpf.HashMap.{HashMap, LruHashMap}
use ebpf_ldms.Bpf.RingBuf.{RingBuf}
use ebpf_ldms.Bpf.Encoder.{Encoder}
use ebpf_ldms.Bpf.ModNum.{ModNum}
use ebpf_ldms.Fslat.Maps.{FsLatencyStats, EntryRec, PidTgid}
use ebpf_ldms.Fslat.Exit.{ExitResult, leave, try_fslat_exit}
use ebpf_ldms.Fslat.Exit.Numbers.{After}
use ebpf_ldms.Fslat.Exit.Whole.{Exits, uncounted, unknown, failing, visited, checked}
use ebpf_ldms.Fslat.Probes.{StatsMap, FslatProbe}
use ebpf_ldms.Fslat.Program.{
  map_index, set_stats, run_probe, run_exit, returns, Event, entry, exit, ExitCall, ProgramMaps,
  exit_maps, put_exit, Runs,
}
use ebpf_ldms.Fslat.Program.Maintained.{IsProgram, IsEvent}
use ebpf_ldms.Fslat.Program.Returning.{Happens, enters, leaves, fails}
use ebpf_ldms.Fslat.Program.Histories.{AreEvents, History, begin, and_then, Runs-History}

-- The event is the start of a call of the thread.
abbrev pub Begins : PidTgid → Event → Type 0
Begins k (entry p c) = c.pid_tgid ≡ k
Begins k (exit p c) = ⊥

-- No call of the thread starts in these events.
abbrev pub IsQuiet : PidTgid → List Event → Type 0
IsQuiet k [] = Unit {0}
IsQuiet k (e ∷ es) = ¬ Begins k e × IsQuiet k es

module _ (helpers : Helpers) (h : HashMap ℕ ℕ) (lru : LruHashMap PidTgid EntryRec) (num : ModNum 16)
    (cbor : Encoder) (rings : RingBuf 1024) where
  absent_removed :
      (m : lru.Map) (k j : PidTgid) → lru.get m k ≡ none → lru.get (lru.remove m j) k ≡ none
  absent_removed m k j absent = elim (PidTgid-cases k j) [
    | inl same ↦ subst (λ i. lru.get (lru.remove m j) i ≡ none) (sym same) (lru.get-remove_self m j)
    | inr other ↦ lru.get-remove_ne m k j other ∙ absent
  ]

  Exits-absent :
      (p : FslatProbe) (c : ExitCall) (s : ProgramMaps helpers h lru num cbor rings) (k : PidTgid)
      (r : ExitResult helpers h lru cbor rings)
      → lru.get s.ptrlist k ≡ none
      → Exits helpers h lru cbor rings p.function c.times c.pid_tgid
          (c.arg p.exit_arg)
          (checked helpers h lru cbor rings c.times.reset
            (exit_maps helpers h lru num cbor rings p.map s))
          r
      → After helpers h lru cbor rings r (λ x. lru.get x.ptrlist k ≡ none)
  unfolding leave
  Exits-absent p c s k r absent (uncounted gone) = absent
  Exits-absent p c s k r absent (unknown at none_left) = absent
  Exits-absent p c s k r absent (failing at found neg) =
      absent_removed s.ptrlist k c.pid_tgid absent
  Exits-absent p c s k r absent (visited at found pos v stats us) =
      absent_removed s.ptrlist k c.pid_tgid absent

  Happens-absent :
      (e : Event) (s t : ProgramMaps helpers h lru num cbor rings) (k : PidTgid)
      → ¬ Begins k e
      → lru.get s.ptrlist k ≡ none
      → Happens helpers h lru num cbor rings e s t
      → lru.get t.ptrlist k ≡ none
  Happens-absent (entry p c) s t k quiet absent (enters done) = elim done.kept [
    | inr (full, same) ↦ subst (λ m. lru.get m k ≡ none) (sym same) absent
    | inl (mine, others) ↦ elim (PidTgid-cases k c.pid_tgid) [
      | inl same ↦ absurd (quiet (sym same))
      | inr other ↦ elim (others k other) [ inl old ↦ old ∙ absent | inr gone ↦ gone ]
    ]
  ]
  Happens-absent (exit p c) s t k quiet absent (leaves {x} ends) =
      Exits-absent p c s k (ExitResult.ok x) absent ends
  Happens-absent (exit p c) s t k quiet absent (fails {x} ends) =
      Exits-absent p c s k (ExitResult.err x) absent ends

  History-absent :
      (es : List Event) (s t : ProgramMaps helpers h lru num cbor rings) (k : PidTgid)
      → IsQuiet k es
      → lru.get s.ptrlist k ≡ none
      → History helpers h lru num cbor rings s es t
      → lru.get t.ptrlist k ≡ none
  History-absent [] s t k quiet absent begin = absent
  History-absent (e ∷ es) s t k (here, quiet) absent (and_then {t = u} past w happens) =
      Happens-absent e u t k here (History-absent es s u k quiet absent past) happens

  -- An exit that leaves nothing behind but a reset of the profile.
  pub record TakesNothing (s t : ProgramMaps helpers h lru num cbor rings) : Type 0 where
    pub stats : (m : StatsMap) → t.stats m ≡ s.stats m
    pub ring : t.ring ≡ s.ring
    pub counter : t.counter ≡ s.counter
    pub ptrlist : t.ptrlist ≡ s.ptrlist

  same_stats :
      (stats : StatsMap → List FsLatencyStats) (map m : StatsMap)
      → set_stats stats map (stats map) m ≡ stats m
  same_stats stats map m = elim (Bool-cases (map_index m == map_index map)) [
    | inl here ↦ rw here (ap stats (sym (map_index_injective m map ((==_iff _ _).0 here))))
    | inr other ↦ rw other
  ]

  exit-TakesNothing :
      (p : FslatProbe) (c : ExitCall) (s : ProgramMaps helpers h lru num cbor rings)
      → IsProgram helpers h lru num cbor rings s
      → lru.get s.ptrlist c.pid_tgid ≡ none
      → (t : ProgramMaps helpers h lru num cbor rings) × (run_probe helpers h lru num cbor rings
            (exit p c)
            s
          ≡ returns 0 t)
        × TakesNothing s t
  unfolding run_probe run_exit try_fslat_exit
  exit-TakesNothing p c s w absent =
      let (n, at, un) = w.counter in
      (
        put_exit helpers h lru num cbor rings p.map s (
            checked helpers h lru cbor rings c.times.reset
              (exit_maps helpers h lru num cbor rings p.map s)),
        rw (run_exit, try_fslat_exit, at, absent),
        record {
          stats = λ m. same_stats s.stats p.map m;
          ring = refl;
          counter = refl;
          ptrlist = refl;
        },
      )

  Exits-removed :
      (p : FslatProbe) (c : ExitCall) (s : ProgramMaps helpers h lru num cbor rings)
      (r : ExitResult helpers h lru cbor rings)
      → IsProgram helpers h lru num cbor rings s
      → Exits helpers h lru cbor rings p.function c.times c.pid_tgid
          (c.arg p.exit_arg)
          (checked helpers h lru cbor rings c.times.reset
            (exit_maps helpers h lru num cbor rings p.map s))
          r
      → After helpers h lru cbor rings r (λ x. lru.get x.ptrlist c.pid_tgid ≡ none)
  unfolding leave
  Exits-removed p c s r w (uncounted gone) = let (n, at, un) = w.counter in cc
  Exits-removed p c s r w (unknown at absent) = absent
  Exits-removed p c s r w (failing at found neg) = lru.get-remove_self s.ptrlist c.pid_tgid
  Exits-removed p c s r w (visited at found pos v stats us) =
      lru.get-remove_self s.ptrlist c.pid_tgid

  Happens-removed :
      (p : FslatProbe) (c : ExitCall) (s t : ProgramMaps helpers h lru num cbor rings)
      → IsProgram helpers h lru num cbor rings s
      → Happens helpers h lru num cbor rings (exit p c) s t
      → lru.get t.ptrlist c.pid_tgid ≡ none
  Happens-removed p c s t w (leaves {x} ends) = Exits-removed p c s (ExitResult.ok x) w ends
  Happens-removed p c s t w (fails {x} ends) = Exits-removed p c s (ExitResult.err x) w ends

  History-removed :
      (p : FslatProbe) (c : ExitCall) (s t : ProgramMaps helpers h lru num cbor rings)
      → History helpers h lru num cbor rings s (exit p c ∷ []) t
      → lru.get t.ptrlist c.pid_tgid ≡ none
  History-removed p c s t (and_then {t = u} past w happens) = Happens-removed p c u t w happens

  -- After the exit of a call of a thread, runs in which no call of that thread starts, and then
  -- another exit of it, of any probe: that exit returns, and takes no sample. All statistics, the
  -- ring, the counter and the entries stay as they are. So of two probed calls, one within the
  -- other, only the inner one is counted.
  pub Runs-TakesNothing :
      (q p : FslatProbe) (d c : ExitCall) (es : List Event)
      (s u t : ProgramMaps helpers h lru num cbor rings)
      → IsProgram helpers h lru num cbor rings s
      → IsEvent (exit q d)
      → AreEvents es
      → IsQuiet d.pid_tgid es
      → c.pid_tgid ≡ d.pid_tgid
      → Runs helpers h lru num cbor rings s (exit q d ∷ []) u
      → Runs helpers h lru num cbor rings u es t
      → (v : ProgramMaps helpers h lru num cbor rings) × (run_probe helpers h lru num cbor rings
            (exit p c)
            t
          ≡ returns 0 v)
        × TakesNothing t v
  Runs-TakesNothing q p d c es s u t w is are quiet same first others =
      let (past, kept) =
        Runs-History helpers h lru num cbor rings (exit q d ∷ []) s u w (is, tt) first in
      let (after, well) = Runs-History helpers h lru num cbor rings es u t kept are others in
      let absent = History-absent es u t d.pid_tgid quiet (History-removed q d s u past) after in
      exit-TakesNothing p c t well (subst (λ k. lru.get t.ptrlist k ≡ none) (sym same) absent)
