-- ===== src/Fslat/Program/Separate.antt =====
-- Which statistics the programs of producers/fslatency/vfslatency-ebpf/src/main.rs change.
use ebpf_ldms.Prelude.{
  some_injective, get_elem?, map, ℕ, ◌≡◌, ◌≢◌, refl, sym, ap, ◌∙◌, some, inl, inr, Bool-cases, List,
  [], ◌∷◌, ◌==◌, ==_iff,
}
use ebpf_ldms.Fslat.Exit.Prefixes.{
  KeepsPrefixes, KeepsPrefixes-refl, KeepsPrefixes-trans, Visits-KeepsPrefixes,
}
use ebpf_ldms.Bpf.Helpers.{Helpers}
use ebpf_ldms.Bpf.HashMap.{HashMap, LruHashMap}
use ebpf_ldms.Bpf.RingBuf.{RingBuf}
use ebpf_ldms.Bpf.Encoder.{Encoder}
use ebpf_ldms.Bpf.ModNum.{ModNum}
use ebpf_ldms.Fslat.Maps.{FsLatencyStats, EntryRec, PidTgid}
use ebpf_ldms.Fslat.Exit.{ExitResult, leave}
use ebpf_ldms.Fslat.Exit.Numbers.{After}
use ebpf_ldms.Fslat.Exit.Whole.{Exits, uncounted, unknown, failing, visited, checked}
use ebpf_ldms.Fslat.Probes.{
  fslat_probes, StatsMap, close_stats, fsync_stats, write_stats, writev_stats, read_stats,
  readv_stats, kread_stats, kwrite_stats, FslatProbe,
}
use ebpf_ldms.Fslat.Program.{
  map_index, set_stats, Event, entry, exit, ExitCall, ProgramMaps, exit_maps, Runs,
}
use ebpf_ldms.Fslat.Program.Maintained.{IsProgram}
use ebpf_ldms.Fslat.Program.Returning.{Happens, enters, leaves, fails}
use ebpf_ldms.Fslat.Program.Histories.{AreEvents, History, begin, and_then, Runs-History}

stats_maps : List StatsMap
stats_maps = map (λ p. p.map) fslat_probes

-- The probes of the program have the eight maps in their order.
stats_maps-map_index : (m : StatsMap) → get_elem? stats_maps (map_index m) ≡ some m
unfolding map_index stats_maps fslat_probes
stats_maps-map_index close_stats = refl
stats_maps-map_index fsync_stats = refl
stats_maps-map_index write_stats = refl
stats_maps-map_index writev_stats = refl
stats_maps-map_index read_stats = refl
stats_maps-map_index readv_stats = refl
stats_maps-map_index kread_stats = refl
stats_maps-map_index kwrite_stats = refl

pub map_index_injective : (m k : StatsMap) → map_index m ≡ map_index k → m ≡ k
map_index_injective m k e =
    some_injective m k
      (sym (stats_maps-map_index m) ∙ (ap (get_elem? stats_maps) e ∙ stats_maps-map_index k))

pub set_stats_other :
    (stats : StatsMap → List FsLatencyStats) (map m : StatsMap) (xs : List FsLatencyStats)
    → map ≢ m
    → set_stats stats map xs m ≡ stats m
set_stats_other stats map m xs ne = elim (Bool-cases (map_index m == map_index map)) [
  | inl here ↦ absurd (ne (sym (map_index_injective m map ((==_iff _ _).0 here))))
  | inr other ↦ rw other
]

-- The event is an exit of a probe of the map.
abbrev pub Writes : StatsMap → Event → Type 0
Writes m (entry p c) = ⊥
Writes m (exit p c) = p.map ≡ m

-- No such event is among these.
abbrev pub Avoids : StatsMap → List Event → Type 0
Avoids m [] = Unit {0}
Avoids m (e ∷ es) = ¬ Writes m e × Avoids m es

module _ (helpers : Helpers) (h : HashMap ℕ ℕ) (lru : LruHashMap PidTgid EntryRec) (num : ModNum 16)
    (cbor : Encoder) (rings : RingBuf 1024) where
  Happens-stats :
      (m : StatsMap) (e : Event) (s t : ProgramMaps helpers h lru num cbor rings)
      → ¬ Writes m e
      → Happens helpers h lru num cbor rings e s t
      → t.stats m ≡ s.stats m
  Happens-stats m (entry p c) s t apart (enters done) = refl
  Happens-stats m (exit p c) s t apart (leaves {x} ends) =
      set_stats_other s.stats p.map m x.stats apart
  Happens-stats m (exit p c) s t apart (fails {x} ends) =
      set_stats_other s.stats p.map m x.stats apart

  History-stats :
      (m : StatsMap) (es : List Event) (s t : ProgramMaps helpers h lru num cbor rings)
      → Avoids m es
      → History helpers h lru num cbor rings s es t
      → t.stats m ≡ s.stats m
  History-stats m [] s t apart begin = refl
  History-stats m (e ∷ es) s t (here, apart) (and_then {t = u} past w happens) =
      Happens-stats m e u t here happens ∙ History-stats m es s u apart past

  -- A sequence of runs without an exit of the probe of a statistics map leaves that map as it was,
  -- whatever the other probes do.
  Runs-stats :
      (m : StatsMap) (es : List Event) (s t : ProgramMaps helpers h lru num cbor rings)
      → IsProgram helpers h lru num cbor rings s
      → AreEvents es
      → Avoids m es
      → Runs helpers h lru num cbor rings s es t
      → t.stats m ≡ s.stats m
  Runs-stats m es s t w are apart runs =
      History-stats m es s t apart (Runs-History helpers h lru num cbor rings es s t w are runs).0

  Exits-KeepsPrefixes :
      (p : FslatProbe) (c : ExitCall) (s : ProgramMaps helpers h lru num cbor rings)
      (r : ExitResult helpers h lru cbor rings)
      → Exits helpers h lru cbor rings p.function c.times c.pid_tgid
          (c.arg p.exit_arg)
          (checked helpers h lru cbor rings c.times.reset
            (exit_maps helpers h lru num cbor rings p.map s))
          r
      → After helpers h lru cbor rings r (λ x. KeepsPrefixes (s.stats p.map) x.stats)
  unfolding leave
  Exits-KeepsPrefixes p c s r (uncounted gone) = KeepsPrefixes-refl (s.stats p.map)
  Exits-KeepsPrefixes p c s r (unknown at absent) = KeepsPrefixes-refl (s.stats p.map)
  Exits-KeepsPrefixes p c s r (failing at found neg) = KeepsPrefixes-refl (s.stats p.map)
  Exits-KeepsPrefixes p c s r (visited {e} {t} at found pos v stats us) =
      Visits-KeepsPrefixes rings cbor p.function c.times.now (c.arg p.exit_arg) e 8 0 _ t v

  set_stats-KeepsPrefixes :
      (stats : StatsMap → List FsLatencyStats) (map m : StatsMap) (xs : List FsLatencyStats)
      → KeepsPrefixes (stats map) xs
      → KeepsPrefixes (stats m) (set_stats stats map xs m)
  set_stats-KeepsPrefixes stats map m xs keeps = elim (Bool-cases (map_index m == map_index map)) [
    | inl here ↦ rw (here, map_index_injective m map ((==_iff _ _).0 here)) keeps
    | inr other ↦ rw other (KeepsPrefixes-refl (stats m))
  ]

  Happens-KeepsPrefixes :
      (m : StatsMap) (e : Event) (s t : ProgramMaps helpers h lru num cbor rings)
      → Happens helpers h lru num cbor rings e s t
      → KeepsPrefixes (s.stats m) (t.stats m)
  Happens-KeepsPrefixes m (entry p c) s t (enters done) = KeepsPrefixes-refl (s.stats m)
  Happens-KeepsPrefixes m (exit p c) s t (leaves {x} ends) =
      set_stats-KeepsPrefixes s.stats p.map m x.stats
        (Exits-KeepsPrefixes p c s (ExitResult.ok x) ends)
  Happens-KeepsPrefixes m (exit p c) s t (fails {x} ends) =
      set_stats-KeepsPrefixes s.stats p.map m x.stats
        (Exits-KeepsPrefixes p c s (ExitResult.err x) ends)

  pub History-KeepsPrefixes :
      (m : StatsMap) (es : List Event) (s t : ProgramMaps helpers h lru num cbor rings)
      → History helpers h lru num cbor rings s es t
      → KeepsPrefixes (s.stats m) (t.stats m)
  History-KeepsPrefixes m [] s t begin = KeepsPrefixes-refl (s.stats m)
  History-KeepsPrefixes m (e ∷ es) s t (and_then {t = u} past w happens) =
      KeepsPrefixes-trans (s.stats m) (u.stats m) (t.stats m) (History-KeepsPrefixes m es s u past)
        (Happens-KeepsPrefixes m e u t happens)

  -- No sequence of runs from well-formed maps changes, loses or adds a prefix in a statistics map:
  -- the entries stand at the same indices, each with its prefix and the length of it.
  pub Runs-KeepsPrefixes :
      (m : StatsMap) (es : List Event) (s t : ProgramMaps helpers h lru num cbor rings)
      → IsProgram helpers h lru num cbor rings s
      → AreEvents es
      → Runs helpers h lru num cbor rings s es t
      → KeepsPrefixes (s.stats m) (t.stats m)
  Runs-KeepsPrefixes m es s t w are runs =
      History-KeepsPrefixes m es s t (Runs-History helpers h lru num cbor rings es s t w are runs).0
