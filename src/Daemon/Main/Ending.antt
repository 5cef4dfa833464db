-- ===== src/Daemon/Main/Ending.antt =====
-- How `main` of daemon/ebpf_ldms/src/main.rs may end.
use ebpf_ldms.Prelude.{ℕ, ◌≡◌, true, false, Option, some, none, codes}
use ebpf_ldms.Daemon.Cli.{EbpfLdms, parse_ratelimit, IsLimit}
use ebpf_ldms.Daemon.Stream.{Ldms, SockStream, new, connect, drop_stream}
use ebpf_ldms.Daemon.Ring.{Json, Burster, LoopState, Step, goes_on, ends, panics}
use ebpf_ldms.Daemon.Ring.Serving.{Serves}
use ebpf_ldms.Daemon.Main.{Startup, settings_of, End, exits, errs, panicked}

module _ (json : Json) (burster : Burster) (ldms : Ldms) (float_of : ℕ → ℕ → json.Float) where
  module _ (options : EbpfLdms) (s : Startup) (w : ldms.World) where
    -- The stream that the options ask for, or none, and the state of the library then.
    abbrev pub Opens : Option (SockStream ldms) → ldms.World → Type 0
    Opens made w1 =
        new ldms (codes "sock") options.authentication options.host options.port options.stream w
        ≡ (made, w1)

    -- The state in which the task of the loop ends: after the records, by an error or by a panic.
    pub data Stops : Step json burster ldms → ldms.World → Type 0 where
      drained : (t : LoopState json burster ldms) → Stops (goes_on t) t.world
      stopped : (t : LoopState json burster ldms) → Stops (ends t) t.world
      broken_off : (t : LoopState json burster ldms) → Stops (panics t) t.world

    -- The log is open and the stream is made and connected.
    pub record IsConnected (stream : SockStream ldms) (w2 : ldms.World) : Type 0 where
      pub opened : ldms.World
      pub logged : s.logger ≡ true
      pub made : Opens (some stream) opened
      pub joined : connect ldms stream opened ≡ (true, w2)

    -- The task of the loop on a stream.
    abbrev pub Served : SockStream ldms → ldms.World → Step json burster ldms → Type 0
    Served stream w2 r =
        Serves json burster ldms (settings_of json burster ldms float_of (parse_ratelimit options))
          stream s.opening s.items (record { tokens = λ id. none; world = w2 }) r

    -- How the daemon ends. A stream that has been made and not lost by a panic is dropped last.
    pub data Ends : End json burster ldms float_of → Type 0 where
      unlogged : s.logger ≡ false → Ends (errs w)
      unopened : {w1 : ldms.World} → s.logger ≡ true → Opens none w1 → Ends (errs w1)
      unconnected :
          {w1 w2 : ldms.World} {stream : SockStream ldms}
          → s.logger ≡ true
          → Opens (some stream) w1
          → connect ldms stream w1 ≡ (false, w2)
          → Ends (errs (drop_stream ldms stream w2))
      unpinned :
          {w2 : ldms.World} {stream : SockStream ldms}
          → IsConnected stream w2
          → s.pinned ≡ false
          → Ends panicked
      unhandled :
          {w2 : ldms.World} {stream : SockStream ldms}
          → IsConnected stream w2
          → s.pinned ≡ true
          → s.handler ≡ false
          → Ends panicked
      served :
          {w2 w3 : ldms.World} {stream : SockStream ldms} {r : Step json burster ldms}
          → IsConnected stream w2
          → s.pinned ≡ true
          → s.handler ≡ true
          → IsLimit (parse_ratelimit options)
          → Served stream w2 r
          → Stops r w3
          → Ends (exits (drop_stream ldms stream w3))
