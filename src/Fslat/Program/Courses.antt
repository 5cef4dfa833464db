-- ===== src/Fslat/Program/Courses.antt =====
-- What becomes of the statistics of a prefix over any runs of the programs of
-- producers/fslatency/vfslatency-ebpf/src/main.rs, told by the runs alone.
pub mod Followed
use ebpf_ldms.Prelude.{ℕ, ◌^◌, ◌<◌, ◌≤◌, ◌≡◌, ◌≢◌, some, none, List, [], ◌∷◌, get_elem?}
use ebpf_ldms.Fslat.Stats.{clear_stats_locked}
use ebpf_ldms.Fslat.Hist.{check_prof_reset}
use ebpf_ldms.Fslat.Exit.Spec.{Matches, IsDue, sampled, unlocked}
use ebpf_ldms.Fslat.Program.Waiting.{Since}
use ebpf_ldms.Bpf.Helpers.{Helpers}
use ebpf_ldms.Bpf.HashMap.{HashMap, LruHashMap}
use ebpf_ldms.Bpf.RingBuf.{RingBuf}
use ebpf_ldms.Bpf.Encoder.{Encoder}
use ebpf_ldms.Bpf.ModNum.{ModNum}
use ebpf_ldms.Fslat.Maps.{FsLatencyStats, EntryRec, PidTgid}
use ebpf_ldms.Fslat.Exit.{count_drop}
use ebpf_ldms.Fslat.Probes.{StatsMap, FslatProbe}
use ebpf_ldms.Fslat.Program.{Event, entry, exit, EntryCall, ExitCall, ProgramMaps}
use ebpf_ldms.Fslat.Program.Histories.{History}

module _ (helpers : Helpers) (h : HashMap ℕ ℕ) (lru : LruHashMap PidTgid EntryRec) (num : ModNum 16)
    (cbor : Encoder) (rings : RingBuf 1024) where
  -- The end of a call of the probe of the map, whose thread began it with the given entry.
  pub record Ended (m : StatsMap) (es : List Event) (p : FslatProbe) (c : ExitCall) (e : EntryRec)
      : Type 0 where
    pub map : p.map ≡ m
    pub since : Since helpers h lru num cbor rings c.pid_tgid es e
    pub positive : c.arg p.exit_arg < 2 ^ 63

  module _ (s0 : ProgramMaps helpers h lru num cbor rings) (m : StatsMap) (f : FsLatencyStats) where
    -- Why a run leaves the statistics of a prefix as they are: it is an entry, or of another probe,
    -- or its thread has no entry, or the call failed, or its path begins otherwise, or the window of
    -- an earlier prefix of the map was due in the same run and its message found no room.
    pub data Passes (es : List Event) (g : FsLatencyStats) : Event → Type 0 where
      begins : {p : FslatProbe} {c : EntryCall} → Passes es g (entry p c)
      elsewhere : {p : FslatProbe} {c : ExitCall} → p.map ≢ m → Passes es g (exit p c)
      unmatched :
          {p : FslatProbe} {c : ExitCall} {u : ProgramMaps helpers h lru num cbor rings}
          → History helpers h lru num cbor rings s0 es u
          → lru.get u.ptrlist c.pid_tgid ≡ none
          → Passes es g (exit p c)
      negative :
          {p : FslatProbe} {c : ExitCall} → 2 ^ 63 ≤ c.arg p.exit_arg → Passes es g (exit p c)
      differs :
          {p : FslatProbe} {c : ExitCall} {e : EntryRec}
          → Ended m es p c e
          → ¬ Matches g e
          → Passes es g (exit p c)
      drops :
          {p : FslatProbe} {c : ExitCall} {e : EntryRec} {i j : ℕ} {k : FsLatencyStats}
          {u v : ProgramMaps helpers h lru num cbor rings}
          → Ended m es p c e
          → History helpers h lru num cbor rings s0 es u
          → History helpers h lru num cbor rings s0 (exit p c ∷ es) v
          → get_elem? (u.stats m) i ≡ some g
          → j < i
          → get_elem? (u.stats m) j ≡ some k
          → Matches k e
          → IsDue c.times.now k
          → rings.reserve v.ring ≡ none
          → v.prof.ringbuf_drops
            ≡ count_drop (check_prof_reset h c.times.reset u.prof).ringbuf_drops
          → Passes es g (exit p c)

    -- The statistics of a prefix of the map after runs. They change only by the end of a call whose
    -- path begins with the prefix: its sample is added to a window of at most a second, and a longer
    -- one begins anew.
    pub data Course : List Event → FsLatencyStats → Type 0 where
      opens : Course [] f
      passes :
          {es : List Event} {e : Event} {g : FsLatencyStats}
          → Course es g
          → Passes es g e
          → Course (e ∷ es) g
      samples :
          {es : List Event} {p : FslatProbe} {c : ExitCall} {e : EntryRec} {g : FsLatencyStats}
          → Course es g
          → Ended m es p c e
          → Matches g e
          → ¬ IsDue c.times.now g
          → Course (exit p c ∷ es) (unlocked (sampled c.times.now (c.arg p.exit_arg) e g))
      renews :
          {es : List Event} {p : FslatProbe} {c : ExitCall} {e : EntryRec} {g : FsLatencyStats}
          → Course es g
          → Ended m es p c e
          → Matches g e
          → IsDue c.times.now g
          → Course (exit p c ∷ es) (
              unlocked
                (clear_stats_locked (sampled c.times.now (c.arg p.exit_arg) e g) c.times.now))

    -- The entry of the map at an index, and its course.
    abbrev pub Follows : List Event → List FsLatencyStats → ℕ → Type 0
    Follows es stats i = (g : FsLatencyStats) × (get_elem? stats i ≡ some g) × Course es g
