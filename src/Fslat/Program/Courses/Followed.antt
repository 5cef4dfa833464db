-- ===== src/Fslat/Program/Courses/Followed.antt =====
-- The programs of producers/fslatency/vfslatency-ebpf/src/main.rs keep the statistics on their
-- course.
use mathlib.Core.Bool.{false≢true}
use ebpf_ldms.Prelude.{
  arith, ℕ, ◌<◌, ◌≤◌, ◌≡◌, sym, ap, ◌∙◌, subst, some, none, inl, inr, Bool-cases, List, [], ◌∷◌,
  ◌==◌, ==_iff, get_elem?,
}
use ebpf_ldms.Fslat.Hist.{check_prof_reset}
use ebpf_ldms.Fslat.Exit.Covers.{
  Fate, other, counted, renewed, EndsAt, at_last, at_drop, reached_or_behind,
}
use ebpf_ldms.Fslat.Exit.Fates.{fates_of}
use ebpf_ldms.Fslat.Exit.Numbers.{After}
use ebpf_ldms.Fslat.Program.Separate.{map_index_injective}
use ebpf_ldms.Fslat.Program.Waiting.{AllSince, History-AllSince}
use ebpf_ldms.Bpf.Helpers.{Helpers}
use ebpf_ldms.Bpf.HashMap.{HashMap, LruHashMap}
use ebpf_ldms.Bpf.RingBuf.{RingBuf}
use ebpf_ldms.Bpf.Encoder.{Encoder}
use ebpf_ldms.Bpf.ModNum.{ModNum}
use ebpf_ldms.Fslat.Maps.{FsLatencyStats, EntryRec, PidTgid}
use ebpf_ldms.Fslat.Exit.{ExitState, ExitResult}
use ebpf_ldms.Fslat.Exit.Whole.{Exits, uncounted, unknown, failing, visited, checked}
use ebpf_ldms.Fslat.Probes.{StatsMap, FslatProbe}
use ebpf_ldms.Fslat.Program.{
  map_index, set_stats, Event, entry, exit, ExitCall, ProgramMaps, exit_maps, Runs,
}
use ebpf_ldms.Fslat.Program.Maintained.{IsProgram}
use ebpf_ldms.Fslat.Program.Returning.{Happens, enters, leaves, fails}
use ebpf_ldms.Fslat.Program.Histories.{AreEvents, History, begin, and_then, Runs-History}
use ebpf_ldms.Fslat.Program.Courses.{
  Ended, begins, elsewhere, unmatched, negative, differs, drops, Course, opens, passes, samples,
  renews, Follows,
}

module _ (helpers : Helpers) (h : HashMap ℕ ℕ) (lru : LruHashMap PidTgid EntryRec) (num : ModNum 16)
    (cbor : Encoder) (rings : RingBuf 1024) where
  module _ (s0 : ProgramMaps helpers h lru num cbor rings) (m : StatsMap) (f : FsLatencyStats) where
    Fate-Course :
        (es : List Event) (p : FslatProbe) (c : ExitCall) (e : EntryRec) (g g' : FsLatencyStats)
        → Course helpers h lru num cbor rings s0 m f es g
        → Ended helpers h lru num cbor rings m es p c e
        → Fate c.times.now (c.arg p.exit_arg) e g g'
        → Course helpers h lru num cbor rings s0 m f (exit p c ∷ es) g'
    Fate-Course es p c e g g' past done (other apart) = passes past (differs done apart)
    Fate-Course es p c e g g' past done (counted is early) = samples past done is early
    Fate-Course es p c e g g' past done (renewed is due) = renews past done is due

    -- A prefix behind those that the visits reach is one behind a dropped message.
    behind-Course :
        (es : List Event) (p : FslatProbe) (c : ExitCall) (e : EntryRec) (g : FsLatencyStats)
        (i reached : ℕ) (u v : ProgramMaps helpers h lru num cbor rings)
        → History helpers h lru num cbor rings s0 es u
        → History helpers h lru num cbor rings s0 (exit p c ∷ es) v
        → Course helpers h lru num cbor rings s0 m f es g
        → Ended helpers h lru num cbor rings m es p c e
        → i < 8
        → reached ≤ i
        → get_elem? (u.stats p.map) i ≡ some g
        → EndsAt rings cbor p.function c.times.now
            (c.arg p.exit_arg)
            e
            0
            8
            reached
            (u.stats p.map)
            (check_prof_reset h c.times.reset u.prof).ringbuf_drops
            v.prof.ringbuf_drops
            v.ring
        → Course helpers h lru num cbor rings s0 m f (exit p c ∷ es) g
    behind-Course es p c e g i reached u v before after past done lt le at (at_last full d) =
        absurd (omega arith)
    behind-Course es p c e g i reached u v before after past done lt le at
          (at_drop j k z r there is due full lost) =
        let stay =
          λ (n : ℕ) (x : FsLatencyStats). subst (λ q. get_elem? (u.stats q) n ≡ some x) done.map in
        passes past
          (drops done before after (stay i g at) (omega arith) (stay j k there) is due full lost)

    -- The entry of the probe's own map after an exit.
    Exits-Follows :
        (p : FslatProbe) (c : ExitCall) (es : List Event)
        (s : ProgramMaps helpers h lru num cbor rings) (i : ℕ) (g : FsLatencyStats)
        (r : ExitResult helpers h lru cbor rings)
        → IsProgram helpers h lru num cbor rings s
        → AllSince helpers h lru num cbor rings es s
        → History helpers h lru num cbor rings s0 es s
        → p.map ≡ m
        → i < 8
        → get_elem? (s.stats p.map) i ≡ some g
        → Course helpers h lru num cbor rings s0 m f es g
        → Exits helpers h lru cbor rings p.function c.times c.pid_tgid
            (c.arg p.exit_arg)
            (checked helpers h lru cbor rings c.times.reset
              (exit_maps helpers h lru num cbor rings p.map s))
            r
        → After helpers h lru cbor rings r
            (λ x. Follows helpers h lru num cbor rings s0 m f (exit p c ∷ es) x.stats i)
    Exits-Follows p c es s i g r w all hist own lt at past (uncounted gone) =
        let (n, held, un) = w.counter in cc
    Exits-Follows p c es s i g r w all hist own lt at past (unknown here absent) =
        (g, at, passes past (unmatched hist absent))
    Exits-Follows p c es s i g r w all hist own lt at past (failing here found neg) =
        (g, at, passes past (negative neg))
    Exits-Follows p c es s i g r w all hist own lt at past
          (visited {seq} {e} {t} here found pos v stats us) =
        let ends = visited here found pos v stats us in
        let done =
          fates_of helpers h lru cbor rings p.function c.times c.pid_tgid (c.arg p.exit_arg)
            (checked helpers h lru cbor rings c.times.reset
              (exit_maps helpers h lru num cbor rings p.map s))
            _ seq e here found pos ends in
        let own_end : Ended helpers h lru num cbor rings m es p c e = record {
          map = own;
          since = all c.pid_tgid e found;
          positive = pos;
        } in
        elim (reached_or_behind i done.reached) [
          | inl is_reached ↦
              let (g', at', fate) = done.fates i g is_reached at in
              (g', at', Fate-Course es p c e g g' past own_end fate)
          | inr le ↦ (
            g,
            done.rest i le ∙ at,
            behind-Course es p c e g i done.reached s _ hist (and_then hist w (leaves ends)) past
                own_end lt le at done.stops,
          )
        ]

    exit-Follows :
        (p : FslatProbe) (c : ExitCall) (es : List Event)
        (s : ProgramMaps helpers h lru num cbor rings) (x : ExitState helpers h lru cbor rings)
        (i : ℕ)
        → Follows helpers h lru num cbor rings s0 m f es (s.stats m) i
        → (p.map ≡ m → Follows helpers h lru num cbor rings s0 m f (exit p c ∷ es) x.stats i)
        → Follows helpers h lru num cbor rings s0 m f
            (exit p c ∷ es)
            (set_stats s.stats p.map x.stats m)
            i
    exit-Follows p c es s x i (g, at, past) own =
        elim (Bool-cases (map_index m == map_index p.map)) [
          | inl here ↦ rw here (own (sym (map_index_injective m p.map ((==_iff _ _).0 here))))
          | inr apart ↦ rw apart (
            g,
            at,
            passes past
                (elsewhere (λ e. false≢true (sym apart ∙ (==_iff _ _).1 (ap map_index (sym e))))),
          )
        ]

    Happens-Follows :
        (e : Event) (es : List Event) (s t : ProgramMaps helpers h lru num cbor rings) (i : ℕ)
        → IsProgram helpers h lru num cbor rings s
        → AllSince helpers h lru num cbor rings es s
        → History helpers h lru num cbor rings s0 es s
        → i < 8
        → Follows helpers h lru num cbor rings s0 m f es (s.stats m) i
        → Happens helpers h lru num cbor rings e s t
        → Follows helpers h lru num cbor rings s0 m f (e ∷ es) (t.stats m) i
    Happens-Follows (entry p c) es s t i w all hist lt (g, at, past) (enters done) =
        (g, at, passes past begins)
    Happens-Follows (exit p c) es s t i w all hist lt (g, at, past) (leaves {x} ends) =
        exit-Follows p c es s x i (g, at, past)
          (λ own.
            Exits-Follows p c es s i g (ExitResult.ok x) w all hist own lt
              (subst (λ k. get_elem? (s.stats k) i ≡ some g) (sym own) at) past ends)
    Happens-Follows (exit p c) es s t i w all hist lt (g, at, past) (fails {x} ends) =
        exit-Follows p c es s x i (g, at, past)
          (λ own.
            Exits-Follows p c es s i g (ExitResult.err x) w all hist own lt
              (subst (λ k. get_elem? (s.stats k) i ≡ some g) (sym own) at) past ends)

    History-Follows :
        (es : List Event) (t : ProgramMaps helpers h lru num cbor rings) (i : ℕ)
        → ((k : PidTgid) → lru.get s0.ptrlist k ≡ none)
        → i < 8
        → get_elem? (s0.stats m) i ≡ some f
        → History helpers h lru num cbor rings s0 es t
        → Follows helpers h lru num cbor rings s0 m f es (t.stats m) i
    History-Follows [] t i empty lt at begin = (f, at, opens)
    History-Follows (e ∷ es) t i empty lt at (and_then {t = u} past w happens) =
        Happens-Follows e es u t i w
          (History-AllSince helpers h lru num cbor rings es s0 u empty past) past lt
          (History-Follows es u i empty lt at past) happens

    -- Where PTRLIST is empty at first, after any sequence of runs from well-formed maps the
    -- statistics of each of the eight prefixes of a map are what their course makes of those of
    -- before: the calls of the map's own probe, each with the start and the path of a call that its
    -- thread began and had not ended, add their samples in order or begin a new window, and every
    -- other run leaves them as they are, for one of the reasons that are told, of which a dropped
    -- message is that of an earlier prefix of the map, whose window was due.
    pub Runs-Course :
        (es : List Event) (t : ProgramMaps helpers h lru num cbor rings) (i : ℕ)
        → IsProgram helpers h lru num cbor rings s0
        → AreEvents es
        → ((k : PidTgid) → lru.get s0.ptrlist k ≡ none)
        → i < 8
        → get_elem? (s0.stats m) i ≡ some f
        → Runs helpers h lru num cbor rings s0 es t
        → Follows helpers h lru num cbor rings s0 m f es (t.stats m) i
    Runs-Course es t i w are empty lt at runs =
        History-Follows es t i empty lt at
          (Runs-History helpers h lru num cbor rings es s0 t w are runs).0
