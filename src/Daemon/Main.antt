-- ===== src/Daemon/Main.antt =====
-- The start and the end of the daemon: `main` of daemon/ebpf_ldms/src/main.rs.
pub mod Ending
use ebpf_ldms.Prelude.{ℕ, List, Bool, true, false, Option, some, none, if◌then◌else◌, codes}
use ebpf_ldms.Daemon.Cli.{EbpfLdms, parse_ratelimit}
use ebpf_ldms.Daemon.Clock.{TimeOffset, unix_time}
use ebpf_ldms.Daemon.Stream.{Ldms, SockStream, new, connect, drop_stream}
use ebpf_ldms.Daemon.Ring.{Json, Burster, Settings, Opening, Step, goes_on, ends, panics, ring_loop}

-- What the system answers to `main`: whether the log file opens, the result of `setrlimit`, whether
-- the pinned ring is there, how the task of the loop can start, whether a handler for Ctrl-C can be
-- set, and the records that come until Ctrl-C, each with the time at which it is handled.
pub record Startup : Type 0 where
  pub logger : Bool
  pub rlimit : ℕ
  pub pinned : Bool
  pub opening : Opening
  pub handler : Bool
  pub items : List (List ℕ × ℕ)

module _ (json : Json) (burster : Burster) (ldms : Ldms) (float_of : ℕ → ℕ → json.Float) where
  -- The settings of the loop, by the offset of the clocks.
  unfoldable pub settings_of : EbpfLdms → TimeOffset → Settings json
  settings_of cli offset = record {
    msglimit = cli.msglimit;
    interval = cli.interval;
    hostname = cli.hostname;
    unix_time = λ nanos. elim (unix_time offset nanos) [
      | none ↦ none
      | some (secs, subsec) ↦ some (float_of secs subsec)
    ];
  }

  pub data End : Type 0 where
    exits errs : ldms.World → End
    panicked : End

  -- What Ctrl-C leaves: the task is dropped, and the stream with it, before the process ends. A task
  -- that has ended or panicked before has dropped the stream itself; `main` never asks for its result,
  -- and its executor keeps a panic from the rest of the process.
  unfoldable pub drop_task : SockStream ldms → Step json burster ldms → End
  drop_task stream (goes_on t) = exits (drop_stream ldms stream t.world)
  drop_task stream (ends t) = exits (drop_stream ldms stream t.world)
  drop_task stream (panics t) = exits (drop_stream ldms stream t.world)

  -- The rest of `main`, with a connected stream. The unwraps of the ring and of the handler panic.
  unfoldable pub serve : EbpfLdms → Startup → SockStream ldms → ldms.World → End
  unfolding drop_task settings_of
  serve cli s stream w =
      if s.pinned
      then (if s.handler
          then drop_task stream (
              ring_loop json burster ldms (settings_of cli) stream s.opening s.items
                (record { tokens = λ id. none; world = w }))
          else panicked)
      else panicked

  -- An error drops the stream that has been made.
  unfoldable pub with_stream : EbpfLdms → Startup → SockStream ldms → Bool × ldms.World → End
  unfolding serve
  with_stream cli s stream (true, w) = serve cli s stream w
  with_stream cli s stream (false, w) = errs (drop_stream ldms stream w)

  unfoldable pub connect_stream : EbpfLdms → Startup → Option (SockStream ldms) × ldms.World → End
  unfolding with_stream
  connect_stream cli s (none, w) = errs w
  connect_stream cli s (some stream, w) = with_stream cli s stream (connect ldms stream w)

  unfoldable pub main : EbpfLdms → Startup → ldms.World → End
  unfolding connect_stream
  main options s w =
      let cli = parse_ratelimit options in
      if s.logger
      then connect_stream cli s
          (new ldms (codes "sock") cli.authentication cli.host cli.port cli.stream w)
      else errs w
