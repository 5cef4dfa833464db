-- ===== src/Fslat/Tests/StatsRuns.antt =====
-- The statistics, histograms and prefixes of lib.rs on concrete inputs.
use ebpf_ldms.Prelude.{
  ◌++◌, ℕ, suc, ◌^◌, ◌≤◌, ◌<◌, ◌≡◌, ◌≢◌, refl, ◌⊎◌, arith, List, [], ◌∷◌, true, false, some, none,
  replicate, get_elem?, take,
}
use ebpf_ldms.Bpf.HashMap.{HashMap, unbounded}
use ebpf_ldms.Fslat.Maps.{FsLatencyStats, pathfraglen}
use ebpf_ldms.Fslat.Stats.{update_stats_locked, clear_stats_locked, update_all}
use ebpf_ldms.Fslat.Stats.Summary.{Describes, update_all-clear, update_all-zero}
use ebpf_ldms.Fslat.Hist.{
  leading_zeros, log2_bucket, Prof, remove_bucket, remove_buckets, check_prof_reset,
}
use ebpf_ldms.Fslat.Hist.Buckets.{log2_bucket_bits}
use ebpf_ldms.Fslat.Hist.Reset.{IsReset, check_prof_reset_lem}
use ebpf_ldms.Fslat.Prefix.{compare_from, starts_with, starts_with-Decides, Decides}

-- The prefix "/a" as the loader writes it.
abbrev pub loaded : FsLatencyStats
loaded = record {
  lock = false;
  pathlen = 2;
  path_prefix = b'/' ∷ b'a' ∷ replicate 30 0;
  min = 0;
  max = 0;
  total_lat = 0;
  total_bytes = 0;
  count = 0;
  lastpublish = 0;
}

abbrev samples : List (ℕ × ℕ)
samples = (30, 512) ∷ (10, 4096) ∷ (20, 0) ∷ []

update_all_runs : (update_all (clear_stats_locked loaded 7) samples).min ≡ 10
unfolding update_all update_stats_locked clear_stats_locked
update_all_runs = refl

update_all-clear_example :
    let t = update_all (clear_stats_locked loaded 7) samples in
    Describes 7 samples t × (t.pathlen ≡ 2) × (t.path_prefix ≡ loaded.path_prefix)
update_all-clear_example = update_all-clear loaded 7 samples (omega arith)

update_all-zero_example :
    (update_all loaded (((30, 512) ∷ []) ++ ((0, 16) ∷ (50, 16) ∷ (60, 1) ∷ []))).min ≡ 50
update_all-zero_example =
    update_all-zero loaded ((30, 512) ∷ []) 16 50 16 ((60, 1) ∷ [])
      (omega arith, omega arith, (omega arith, omega arith, tt))

log2_bucket_runs :
    (log2_bucket 0 ≡ 0)
    × (log2_bucket 1 ≡ 1)
    × (log2_bucket 1000 ≡ 10)
    × (log2_bucket (2 ^ 63) ≡ 64)
unfolding log2_bucket leading_zeros
log2_bucket_runs = (refl, refl, refl, refl)

log2_bucket_bits_example :
    ((◌≡◌ {A = ℕ} 1000 0) × (log2_bucket 1000 ≡ 0))
    ⊎ ((k : ℕ) × (log2_bucket 1000 ≡ suc k) × (k < 64) × (2 ^ k ≤ 1000) × (1000 < 2 ^ suc k))
log2_bucket_bits_example = log2_bucket_bits 1000 (omega arith)

abbrev pub hashes : HashMap ℕ ℕ
hashes = unbounded ℕ

abbrev pub two_buckets : hashes.Map
two_buckets = hashes.store (hashes.store (λ _. none) 3 5) 64 1

abbrev pub asked : Prof hashes
asked = record {
  ctrl = 1 ∷ [];
  path_res = two_buckets;
  path_walk = two_buckets;
  path_assembly = two_buckets;
  exit = two_buckets;
  walk_iters = two_buckets;
  ringbuf_drops = 0 ∷ [];
}

check_prof_reset_runs :
    let q = check_prof_reset hashes 77 asked in
    (hashes.get q.exit 3 ≡ none) × (hashes.get q.exit 64 ≡ some 1) × (q.ctrl ≡ 77 ∷ [])
unfolding check_prof_reset remove_buckets remove_bucket
check_prof_reset_runs = (refl, refl, refl)

check_prof_reset_lem_example :
    (get_elem? asked.ctrl 0 ≡ some 1 → IsReset hashes 77 asked (check_prof_reset hashes 77 asked))
    × (get_elem? asked.ctrl 0 ≢ some 1 → check_prof_reset hashes 77 asked ≡ asked)
check_prof_reset_lem_example = check_prof_reset_lem hashes 77 asked

abbrev path_ab : List ℕ
path_ab = b'/' ∷ b'a' ∷ b'/' ∷ b'b' ∷ replicate 28 0

starts_with_runs :
    (starts_with loaded.path_prefix path_ab 2 ≡ some true)
    × (starts_with loaded.path_prefix path_ab 3 ≡ some false)
    × (starts_with loaded.path_prefix path_ab 0 ≡ some false)
unfolding starts_with compare_from
starts_with_runs = (refl, refl, refl)

starts_with-Decides_example :
    Decides
      (starts_with loaded.path_prefix path_ab 2)
      ((0 < 2) × (2 ≤ pathfraglen) × (take 2 loaded.path_prefix ≡ take 2 path_ab))
starts_with-Decides_example = starts_with-Decides loaded.path_prefix path_ab 2 refl refl
