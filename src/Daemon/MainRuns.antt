-- ===== src/Daemon/MainRuns.antt =====
-- The daemon from its start to Ctrl-C, with three records of which one is published.
use ebpf_ldms.Prelude.{ℕ, ◌≡◌, refl, [], ◌∷◌, true, codes}
use ebpf_ldms.Daemon.Clock.{
  after_epoch, current_mono_realtime_offset, unix_time, Dates, unix_time-Dates,
}
use ebpf_ldms.Daemon.Cli.{parse_ratelimit}
use ebpf_ldms.Daemon.Stream.{new, connect, ldms_msg_publish, drop_stream}
use ebpf_ldms.Daemon.Ring.{ring_loop}
use ebpf_ldms.Daemon.Main.{Startup, main, exits}
use ebpf_ldms.Daemon.Tests.{recorder, options}
use ebpf_ldms.Daemon.RingRuns.{values, tries, records, opening}

abbrev startup : Startup
startup = record {
  logger = true;
  rlimit = 1;
  pinned = true;
  opening = opening;
  handler = true;
  items = records;
}

abbrev seconds : ℕ → ℕ → ℕ
seconds secs subsec = secs

-- The monotonic clock began at second 1000 of the epoch.
unix_time-Dates_example :
    Dates 5000000000 1005000000000 3000000007 (unix_time (after_epoch 1000000000000) 3000000007)
unfolding current_mono_realtime_offset
unix_time-Dates_example =
    unix_time-Dates 5000000000 1005000000000 3000000007 (after_epoch 1000000000000) refl

main_runs : main values tries recorder seconds options startup [] ≡ exits (codes "{}" ∷ [])
unfolding main new parse_ratelimit connect ring_loop unix_time ldms_msg_publish drop_stream
main_runs = refl
