-- ===== src/Pipeline/Serving.antt =====
-- The programs of producers/fslatency, and `main` of daemon/ebpf_ldms/src/main.rs on their records
-- from its start to Ctrl-C.
use ebpf_ldms.Prelude.{ℕ, ◌≡◌, refl, List, ◌++◌, true, none, some, get_elem?, codes}
use ebpf_ldms.Bpf.Helpers.{Helpers}
use ebpf_ldms.Bpf.HashMap.{HashMap, LruHashMap}
use ebpf_ldms.Bpf.RingBuf.{RingBuf}
use ebpf_ldms.Bpf.Encoder.{Encoder}
use ebpf_ldms.Bpf.ModNum.{ModNum}
use ebpf_ldms.Fslat.Maps.{EntryRec, PidTgid}
use ebpf_ldms.Fslat.Program.{Event, ProgramMaps, Runs}
use ebpf_ldms.Fslat.Program.Maintained.{IsProgram}
use ebpf_ldms.Fslat.Program.Histories.{AreEvents}
use ebpf_ldms.Daemon.Cli.{EbpfLdms, parse_ratelimit}
use ebpf_ldms.Daemon.Clock.{after_epoch, current_mono_realtime_offset, unix_time}
use ebpf_ldms.Daemon.Stream.{Ldms, SockStream, new, connect, drop_stream}
use ebpf_ldms.Daemon.Ring.{Json, Burster, Settings, LoopState, serve_items, ring_loop}
use ebpf_ldms.Daemon.Main.{
  Startup, settings_of, exits, drop_task, serve, with_stream, connect_stream, main,
}
use ebpf_ldms.Pipeline.Crates.{Crates}
use ebpf_ldms.Pipeline.Delivery.{bytes_of}
use ebpf_ldms.Pipeline.Passing.{AreUtf8, AllTimed, AllAccepted, Passing, Runs-Passing}

module _ (json : Json) (burster : Burster) (ldms : Ldms) (float_of : ℕ → ℕ → json.Float)
    (options : EbpfLdms) (startup : Startup) (w : ldms.World) where
  -- Everything that `main` and its task ask of the system is there, the library opens and connects a
  -- stream, and the monotonic clock began at the given time after the epoch.
  pub record IsUp (stream : SockStream ldms) (joined : ldms.World) : Type 0 where
    pub opened : ldms.World
    pub logger : startup.logger ≡ true
    pub pinned : startup.pinned ≡ true
    pub handler : startup.handler ≡ true
    pub made :
        new ldms (codes "sock") options.authentication options.host options.port options.stream w
        ≡ (some stream, opened)
    pub connected : connect ldms stream opened ≡ (true, joined)
    pub epoch : ℕ
    pub clocks :
        current_mono_realtime_offset startup.opening.monotonic startup.opening.realtime
        ≡ some (after_epoch epoch)
    pub registered : startup.opening.registered ≡ true

  -- The settings of the loop, by the options after their repair.
  abbrev pub settings : ℕ → Settings json
  settings epoch =
      settings_of json burster ldms float_of (parse_ratelimit options) (after_epoch epoch)

  settings-AllTimed : (epoch : ℕ) → AllTimed json (settings epoch)
  unfolding settings_of unix_time
  settings-AllTimed epoch nanos = (_, refl)

  -- The state in which the loop begins.
  abbrev pub begun : ldms.World → LoopState json burster ldms
  begun joined = record { tokens = λ id. none; world = joined }

  ring_loop-serve_items :
      (stream : SockStream ldms) (joined : ldms.World) (up : IsUp stream joined)
      → ring_loop json burster ldms
          (settings_of json burster ldms float_of (parse_ratelimit options))
          stream
          startup.opening
          startup.items
          (begun joined)
        ≡ serve_items json burster ldms (settings up.epoch) stream startup.items (begun joined)
  unfolding ring_loop
  ring_loop-serve_items stream joined up = simp (ring_loop, up.clocks, up.registered)

  main-serve_items :
      (stream : SockStream ldms) (joined : ldms.World) (up : IsUp stream joined)
      → main json burster ldms float_of options startup w
        ≡ drop_task json burster ldms float_of stream
            (serve_items json burster ldms (settings up.epoch) stream startup.items (begun joined))
  unfolding main serve with_stream connect_stream parse_ratelimit
  main-serve_items stream joined up = simp (
    up.logger,
    up.made,
    up.connected,
    up.pinned,
    up.handler,
    ring_loop-serve_items stream joined up,
  )

  module _ (crates : Crates json) (helpers : Helpers) (h : HashMap ℕ ℕ)
      (lru : LruHashMap PidTgid EntryRec) (num : ModNum 16) (cbor : Encoder)
      (rings : RingBuf 1024) where
    -- Where every configured prefix is UTF-8, all that `main` asks for is there, the epoch lies
    -- before the start of the monotonic clock, and every value is printed and taken by the library:
    -- if the records that come until Ctrl-C are those that a sequence of runs from well-formed maps
    -- puts into the ring, the daemon serves all of them and exits, and closes the stream last. Each
    -- message is held back by the limit of the producer or published.
    pub main-Passing :
        (es : List Event) (s t : ProgramMaps helpers h lru num cbor rings) (n : ℕ)
        (stream : SockStream ldms) (joined : ldms.World)
        → IsProgram helpers h lru num cbor rings s
        → AreEvents es
        → Runs helpers h lru num cbor rings s es t
        → get_elem? s.counter 0 ≡ some n
        → rings.records t.ring ≡ rings.records s.ring ++ bytes_of startup.items
        → AreUtf8 s.stats
        → (up : IsUp stream joined) → AllAccepted json ldms stream
        → (last : LoopState json burster ldms) × (main json burster ldms float_of options startup w
            ≡ exits (drop_stream ldms stream last.world))
          × Passing json crates burster ldms
              (settings up.epoch)
              stream
              s.stats
              n
              startup.items
              (begun joined)
              last
    unfolding drop_task
    main-Passing es s t n stream joined prog are runs at records utf8 up accepted =
        let (last, through, passing) =
          Runs-Passing json crates burster ldms (settings up.epoch) stream helpers h lru num cbor
            rings es s t n startup.items (begun joined) prog are runs at records utf8
            (settings-AllTimed up.epoch) accepted in
        (last, rw (main-serve_items stream joined up, through) refl, passing)
