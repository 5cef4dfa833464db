-- ===== src/Fslat/Stats.antt =====
-- The statistics of one path prefix: `update_stats_locked` and `clear_stats_locked` of
-- producers/fslatency/vfslatency-common/src/lib.rs, and the snapshot that `try_fslat_exit` takes.
pub mod Summary
use ebpf_ldms.Prelude.{ℕ, ◌≡◌, List, [], ◌∷◌, ltb, ◌==◌, ◌||◌, if◌then◌else◌, add64, u64_max}
use ebpf_ldms.Fslat.Maps.{FsLatencyStats, StatsSnapshot}

-- Zero in `min` or `max` counts as no value yet.
unfoldable pub update_stats_locked : FsLatencyStats → ℕ → ℕ → FsLatencyStats
update_stats_locked s latency bytes = record s {
  min = if ltb latency s.min || s.min == 0 then latency else s.min;
  max = if ltb s.max latency || s.max == 0 then latency else s.max;
  total_lat = add64 s.total_lat latency;
  total_bytes = add64 s.total_bytes bytes;
  count = add64 s.count 1;
}

unfoldable pub clear_stats_locked : FsLatencyStats → ℕ → FsLatencyStats
clear_stats_locked s now = record s {
  min = u64_max;
  max = 0;
  total_lat = 0;
  total_bytes = 0;
  count = 0;
  lastpublish = now;
}

unfoldable pub take_snapshot : FsLatencyStats → StatsSnapshot
take_snapshot s = record {
  pathlen = s.pathlen;
  path_prefix = s.path_prefix;
  min = s.min;
  max = s.max;
  total_lat = s.total_lat;
  total_bytes = s.total_bytes;
  count = s.count;
}

-- The samples of a window, in order: a latency and a number of bytes each.
unfoldable pub update_all : FsLatencyStats → List (ℕ × ℕ) → FsLatencyStats
update_all s [] = s
update_all s ((latency, bytes) ∷ xs) = update_all (update_stats_locked s latency bytes) xs
