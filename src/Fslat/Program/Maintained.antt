-- ===== src/Fslat/Program/Maintained.antt =====
-- The programs of producers/fslatency/vfslatency-ebpf/src/main.rs keep all maps well-formed, and
-- never panic on well-formed maps.
use ebpf_ldms.Prelude.{
  both, ℕ, zero, suc, ◌≤◌, ◌≡◌, refl, sym, ◌∙◌, subst, inl, inr, List, [], ◌∷◌, Bool, true, ◌&&◌,
  leb, leb→le, Bool-cases, some, some_injective, get_elem?, length, IsU64, ◌==◌,
}
use ebpf_ldms.Bpf.Helpers.{Helpers}
use ebpf_ldms.Bpf.HashMap.{HashMap, LruHashMap}
use ebpf_ldms.Bpf.RingBuf.{RingBuf}
use ebpf_ldms.Bpf.Encoder.{Encoder}
use ebpf_ldms.Bpf.ModNum.{ModNum}
use ebpf_ldms.Fslat.Maps.{EntryRec, PidTgid, IsPathSlice}
use ebpf_ldms.Fslat.Path.Slots.{IsRing}
use ebpf_ldms.Fslat.Path.Whole.{blank}
use ebpf_ldms.Fslat.Entry.{EntryState}
use ebpf_ldms.Fslat.Entry.Stored.{IsReady, PidTgid-cases, none-ne-some}
use ebpf_ldms.Fslat.Exit.{ExitState}
use ebpf_ldms.Fslat.Exit.WellFormed.{AllStats}
use ebpf_ldms.Fslat.Exit.Whole.{IsState}
use ebpf_ldms.Fslat.Probes.{StatsMap, FslatProbe, fslat_probes}
use ebpf_ldms.Fslat.Program.{
  map_index, Event, entry, exit, EntryCall, ProgramMaps, entry_maps, put_entry, exit_maps, put_exit,
}

-- The probes of the program, and the names of their functions.
abbrev pub IsProbe : FslatProbe → Type 0
IsProbe p = (i : ℕ) × (get_elem? fslat_probes i ≡ some p)

all_short : List FslatProbe → Bool
all_short [] = true
all_short (p ∷ ps) = leb (length p.function) 500 && all_short ps

probe_short :
    (ps : List FslatProbe) (i : ℕ) (p : FslatProbe)
    → all_short ps ≡ true
    → get_elem? ps i ≡ some p
    → length p.function ≤ 500
unfolding all_short
probe_short [] i p h e = cc
probe_short (q ∷ ps) zero p h e =
    subst (λ x. length x.function ≤ 500) (some_injective q p e)
      (leb→le _ _ (both (leb (length q.function) 500) (all_short ps) h).0)
probe_short (q ∷ ps) (suc i) p h e =
    probe_short ps i p (both (leb (length q.function) 500) (all_short ps) h).1 e

pub IsProbe-short : (p : FslatProbe) → IsProbe p → length p.function ≤ 500
unfolding all_short fslat_probes
IsProbe-short p (i, e) = probe_short fslat_probes i p refl e

-- What an event of a probe of the program may be.
abbrev pub IsEvent : Event → Type 0
IsEvent (entry p c) = IsProbe p
IsEvent (exit p c) = IsProbe p × IsU64 c.times.now × IsU64 (c.arg p.exit_arg)

module _ (helpers : Helpers) (h : HashMap ℕ ℕ) (lru : LruHashMap PidTgid EntryRec) (num : ModNum 16)
    (cbor : Encoder) (rings : RingBuf 1024) where
  -- Between the runs of two programs: the counter holds a u64, the statistics of every map hold
  -- values of their types, the buffers of each CPU are ready for a call, and each entry that waits
  -- for the end of its call holds a path of its size.
  pub record IsProgram (s : ProgramMaps helpers h lru num cbor rings) : Type 0 where
    pub counter : (n : ℕ) × (get_elem? s.counter 0 ≡ some n) × IsU64 n
    pub stats : (m : StatsMap) → AllStats (s.stats m)
    pub pathbuf : (c : ℕ) → get_elem? (s.buffers c).pathbuf 0 ≡ some blank
    pub ring : (c : ℕ) → IsRing (s.buffers c).pathbuftmp
    pub paths : (k : PidTgid) (e : EntryRec) → lru.get s.ptrlist k ≡ some e → IsPathSlice e.path

  pub entry_maps-IsReady :
      (c : EntryCall) (s : ProgramMaps helpers h lru num cbor rings)
      → IsProgram s
      → IsReady h lru num helpers c.kernel (entry_maps helpers h lru num cbor rings c.cpu s)
  entry_maps-IsReady c s w = record {
    pathbuf = w.pathbuf c.cpu;
    ring = w.ring c.cpu;
    paths = w.paths;
  }

  pub put_entry-IsProgram :
      (c : EntryCall) (s : ProgramMaps helpers h lru num cbor rings) (e : EntryState h lru)
      → IsProgram s
      → IsReady h lru num helpers c.kernel e
      → IsProgram (put_entry helpers h lru num cbor rings c.cpu s e)
  put_entry-IsProgram c s e w r = record {
    counter = w.counter;
    stats = w.stats;
    pathbuf = λ k. elim (Bool-cases (k == c.cpu)) [
      | inl here ↦ rw here (r.pathbuf)
      | inr other ↦ rw other (w.pathbuf k)
    ];
    ring = λ k. elim (Bool-cases (k == c.cpu)) [
      | inl here ↦ rw here (r.ring)
      | inr other ↦ rw other (w.ring k)
    ];
    paths = r.paths;
  }

  -- An exit program finds the maps that it works on well-formed.
  pub exit-IsState :
      (map : StatsMap) (s : ProgramMaps helpers h lru num cbor rings)
      → IsProgram s
      → IsState helpers h lru cbor rings (exit_maps helpers h lru num cbor rings map s)
  exit-IsState map s w =
      let (n, at, un) = w.counter in
      record {
        seq = λ k e. subst IsU64 (some_injective n k (sym at ∙ e)) un;
        stats = w.stats map;
        paths = w.paths;
      }

  pub put_exit-IsProgram :
      (map : StatsMap) (s : ProgramMaps helpers h lru num cbor rings)
      (x : ExitState helpers h lru cbor rings)
      → IsProgram s
      → (n : ℕ) × (get_elem? x.counter 0 ≡ some n) × IsU64 n
      → AllStats x.stats
      → ((k : PidTgid) (e : EntryRec) → lru.get x.ptrlist k ≡ some e → IsPathSlice e.path)
      → IsProgram (put_exit helpers h lru num cbor rings map s x)
  put_exit-IsProgram map s x w counter stats paths = record {
    counter = counter;
    stats = λ m. elim (Bool-cases (map_index m == map_index map)) [
      | inl here ↦ rw here stats
      | inr other ↦ rw other (w.stats m)
    ];
    pathbuf = w.pathbuf;
    ring = w.ring;
    paths = paths;
  }

  pub removed_paths :
      (m : lru.Map) (k : PidTgid)
      → ((j : PidTgid) (e : EntryRec) → lru.get m j ≡ some e → IsPathSlice e.path)
      → (j : PidTgid) (e : EntryRec) → lru.get (lru.remove m k) j ≡ some e
      → IsPathSlice e.path
  removed_paths m k all j e at = elim (PidTgid-cases j k) [
    | inl same ↦ absurd (
        none-ne-some e (
          sym (lru.get-remove_self m k) ∙ subst (λ i. lru.get (lru.remove m k) i ≡ some e) same at))
    | inr other ↦ all j e (sym (lru.get-remove_ne m j k other) ∙ at)
  ]
