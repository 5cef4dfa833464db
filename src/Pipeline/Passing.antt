-- ===== src/Pipeline/Passing.antt =====
-- The messages of producers/fslatency that `ring_loop` of daemon/ebpf_ldms/src/main.rs handles where
-- nothing fails.
use ebpf_ldms.Prelude.{
  min, take, ℕ, ◌≡◌, refl, sym, ◌∙◌, List, [], ◌∷◌, ◌++◌, true, false, some, get_elem?, add64,
  codes,
}
use mathlib.Core.Bool.{false≢true}
use ebpf_ldms.Bpf.Helpers.{Helpers}
use ebpf_ldms.Bpf.HashMap.{HashMap, LruHashMap}
use ebpf_ldms.Bpf.RingBuf.{RingBuf}
use ebpf_ldms.Bpf.Encoder.{Encoder}
use ebpf_ldms.Bpf.ModNum.{ModNum}
use ebpf_ldms.Fslat.Maps.{FsLatencyStats, EntryRec, PidTgid, StatsSnapshot}
use ebpf_ldms.Fslat.Exit.{event_at}
use ebpf_ldms.Fslat.Exit.Prefixes.{IsConfigured}
use ebpf_ldms.Fslat.Probes.{StatsMap, FslatProbe}
use ebpf_ldms.Fslat.Program.{Event, ProgramMaps, Runs}
use ebpf_ldms.Fslat.Program.Maintained.{IsProgram, IsProbe}
use ebpf_ldms.Fslat.Program.Histories.{AreEvents}
use ebpf_ldms.Daemon.Stream.{Ldms, SockStream, ldms_msg_publish}
use ebpf_ldms.Daemon.Ring.{
  Json, Burster, Settings, LoopState, Step, goes_on, ends, admit, serve_items,
}
use ebpf_ldms.Pipeline.Utf8.{is_utf8}
use ebpf_ldms.Pipeline.Crates.{Crates}
use ebpf_ldms.Pipeline.Shown.{prefix_of}
use ebpf_ldms.Pipeline.Arriving.{
  IsPublished, Arrives, garbled, early, held_back, went_out, not_printed, not_taken,
}
use ebpf_ldms.Pipeline.Delivery.{
  bytes_of, IsTaken, Delivery, all_taken, taken, broken_off, Runs-Delivery,
}

-- Every prefix that is configured is UTF-8.
abbrev pub AreUtf8 : (StatsMap → List FsLatencyStats) → Type 0
AreUtf8 stats =
    (map : StatsMap) (i : ℕ) (f : FsLatencyStats)
    → get_elem? (stats map) i ≡ some f
    → is_utf8 (take (min f.pathlen 32) f.path_prefix) ≡ true

configured_utf8 :
    (stats : StatsMap → List FsLatencyStats) (map : StatsMap) (s : StatsSnapshot)
    → AreUtf8 stats
    → IsConfigured (stats map) s
    → is_utf8 (prefix_of s) ≡ true
configured_utf8 stats map s all (i, f, at, pathlen, path_prefix) =
    rw (pathlen, path_prefix) (all map i f at)

-- Every reading of the clock has a time after the epoch.
abbrev pub AllTimed : (json : Json) → Settings json → Type 0
AllTimed json c = (nanos : ℕ) → (time : json.Float) × (c.unix_time nanos ≡ some time)

-- Every value is printed, and the library takes it.
abbrev pub AllAccepted : (json : Json) (ldms : Ldms) → SockStream ldms → Type 0
AllAccepted json ldms stream =
    (v : json.Value) (w : ldms.World)
    → (msg : List ℕ) × (world : ldms.World) × (json.to_string v ≡ some msg)
      × (ldms_msg_publish ldms stream msg w ≡ (true, world))

module _ (json : Json) (crates : Crates json) (burster : Burster) (ldms : Ldms) (c : Settings json)
    (stream : SockStream ldms) (stats : StatsMap → List FsLatencyStats) where
  -- Each message is held back by the limit of its producer or goes out, one after another.
  pub data Passing
      : ℕ
        → List (List ℕ × ℕ)
        → LoopState json burster ldms
        → LoopState json burster ldms
        → Type 0 where
    none_left : {n : ℕ} {t : LoopState json burster ldms} → Passing n [] t t
    one_held :
        {n now : ℕ} {bytes : List ℕ} {items : List (List ℕ × ℕ)} {t u : LoopState json burster ldms}
        → (admit json burster c now (codes "fslat/v2") t.tokens).0 ≡ false
        → Passing
            (add64 n 1)
            items
            (record t { tokens = (admit json burster c now (codes "fslat/v2") t.tokens).1 })
            u
        → Passing n ((bytes, now) ∷ items) t u
    one_out :
        {n now monotonic : ℕ} {bytes msg : List ℕ} {items : List (List ℕ × ℕ)}
        {t u : LoopState json burster ldms} {p : FslatProbe} {s : StatsSnapshot} {v : json.Value}
        {world : ldms.World}
        → IsProbe p
        → IsConfigured (stats p.map) s
        → IsPublished json crates c (event_at monotonic n) s p.function (codes "ns") v
        → (admit json burster c now (codes "fslat/v2") t.tokens).0 ≡ true
        → json.to_string v ≡ some msg
        → ldms_msg_publish ldms stream msg t.world ≡ (true, world)
        → Passing
            (add64 n 1)
            items
            (record {
              tokens = (admit json burster c now (codes "fslat/v2") t.tokens).1;
              world = world;
            })
            u
        → Passing n ((bytes, now) ∷ items) t u

  module _ (all : AreUtf8 stats) (timed : AllTimed json c)
      (accepted : AllAccepted json ldms stream) where
    abbrev Passed :
        ℕ → List (List ℕ × ℕ) → LoopState json burster ldms → Step json burster ldms → Type 0
    Passed n items t r = (u : LoopState json burster ldms) × (r ≡ goes_on u) × Passing n items t u

    taken_passes :
        (n now : ℕ) (bytes : List ℕ) (items : List (List ℕ × ℕ)) (t u : LoopState json burster ldms)
        (r : Step json burster ldms)
        → (is : IsTaken json crates burster ldms c stream stats n bytes now t (goes_on u))
        → Arrives json crates c
            (event_at is.monotonic n)
            is.snapshot
            is.probe.function
            (codes "ns")
            burster
            ldms
            stream
            now
            t
            (goes_on u)
        → Passed (add64 n 1) items u r
        → Passed n ((bytes, now) ∷ items) t r
    taken_passes n now bytes items t u r is (garbled bad) rest =
        absurd
          (false≢true (sym bad ∙ configured_utf8 stats is.probe.map is.snapshot all is.configured))
    taken_passes n now bytes items t u r is (early e) rest =
        let (time, e') = timed is.monotonic in cc
    taken_passes n now bytes items t u r is (held_back time held) (last, through, more) =
        (last, through, one_held held more)
    taken_passes n now bytes items t u r is (went_out good out free print took)
          (last, through, more) =
        (last, through, one_out is.is is.configured out free print took more)

    never_broken :
        (n now : ℕ) (bytes : List ℕ) (t u : LoopState json burster ldms)
        (is : IsTaken json crates burster ldms c stream stats n bytes now t (ends u))
        → ¬ Arrives json crates c
            (event_at is.monotonic n)
            is.snapshot
            is.probe.function
            (codes "ns")
            burster
            ldms
            stream
            now
            t
            (ends u)
    never_broken n now bytes t u is (not_printed {v} out free print) =
        let (msg, world, printed, took) = accepted v t.world in cc
    never_broken n now bytes t u is (not_taken {v} out free print refused) =
        let (msg, world, printed, took) = accepted v t.world in cc

    Delivery-Passing :
        (n : ℕ) (items : List (List ℕ × ℕ)) (t : LoopState json burster ldms)
        (r : Step json burster ldms)
        → Delivery json crates burster ldms c stream stats n items t r
        → Passed n items t r
    Delivery-Passing n items t r all_taken = (t, refl, none_left)
    Delivery-Passing n items t r (taken {now} {bytes} {items = others} {u} is more) =
        taken_passes n now bytes others t u r is is.arrives
          (Delivery-Passing (add64 n 1) others u r more)
    Delivery-Passing n items t r (broken_off {now} {bytes} {u} is) =
        absurd (never_broken n now bytes t u is is.arrives)

module _ (json : Json) (crates : Crates json) (burster : Burster) (ldms : Ldms) (c : Settings json)
    (stream : SockStream ldms) (helpers : Helpers) (h : HashMap ℕ ℕ)
    (lru : LruHashMap PidTgid EntryRec) (num : ModNum 16) (cbor : Encoder)
    (rings : RingBuf 1024) where
  -- Where every configured prefix is UTF-8, every time is after the epoch, and every value is printed
  -- and taken by the library: the loop of the daemon gets through all records that a sequence of runs
  -- from well-formed maps puts into the ring, and loses none of their messages. Each is held back by
  -- the limit of the producer, or goes out as a JSON value that shows its number, the function of a
  -- probe and a configured prefix with the numbers of a window.
  pub Runs-Passing :
      (es : List Event) (s t : ProgramMaps helpers h lru num cbor rings) (n : ℕ)
      (items : List (List ℕ × ℕ)) (state : LoopState json burster ldms)
      → IsProgram helpers h lru num cbor rings s
      → AreEvents es
      → Runs helpers h lru num cbor rings s es t
      → get_elem? s.counter 0 ≡ some n
      → rings.records t.ring ≡ rings.records s.ring ++ bytes_of items
      → AreUtf8 s.stats
      → AllTimed json c
      → AllAccepted json ldms stream
      → (last : LoopState json burster ldms) × (serve_items json burster ldms c stream items state
          ≡ goes_on last)
        × Passing json crates burster ldms c stream s.stats n items state last
  Runs-Passing es s t n items state w are runs at records all timed accepted =
      Delivery-Passing json crates burster ldms c stream s.stats all timed accepted n items state _
        (Runs-Delivery json crates burster ldms c stream helpers h lru num cbor rings es s t n items
          state w are runs at records)
