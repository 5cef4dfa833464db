-- ===== src/Fslat/Exit/Spec.antt =====
-- What the loop of `try_fslat_exit` of lib.rs does to the prefixes, one after another, described
-- without locks, panics and bytes on the wire.
use ebpf_ldms.Prelude.{
  ℕ, suc, ◌+◌, ◌<◌, ◌≤◌, ◌≡◌, List, some, none, false, get_elem?, set, take, add64, sub64, codes,
}
use ebpf_ldms.Bpf.RingBuf.{RingBuf}
use ebpf_ldms.Bpf.Encoder.{Encoder}
use ebpf_ldms.Fslat.Maps.{FsLatencyStats, EntryRec, agg_interval, pathfraglen}
use ebpf_ldms.Fslat.Stats.{update_stats_locked, clear_stats_locked, take_snapshot}
use ebpf_ldms.Fslat.Message.Put.{message_item, Sent}
use ebpf_ldms.Fslat.Exit.{LoopState, event_at, count_drop}

-- The path begins with the prefix of the statistics.
abbrev pub Matches : FsLatencyStats → EntryRec → Type 0
Matches s e =
    (0 < s.pathlen)
    × (s.pathlen ≤ pathfraglen)
    × (take s.pathlen s.path_prefix ≡ take s.pathlen e.path)

-- The window of the statistics has been open for more than the interval.
abbrev pub IsDue : ℕ → FsLatencyStats → Type 0
IsDue now s = agg_interval < sub64 now s.lastpublish

-- The statistics with the sample of a call in them that ends now.
abbrev pub sampled : ℕ → ℕ → EntryRec → FsLatencyStats → FsLatencyStats
sampled now ret e s = update_stats_locked s (sub64 now e.timestamp) ret

abbrev pub unlocked : FsLatencyStats → FsLatencyStats
unlocked s = record s { lock = false }

module _ (rings : RingBuf 1024) (cbor : Encoder) (filpop : List ℕ) (now ret : ℕ)
    (e : EntryRec) where
  -- The visits of the prefixes from the given one on, with the rounds left.
  pub data Visits : ℕ → ℕ → LoopState rings → LoopState rings → Type 0 where
    finish : {idx : ℕ} {s : LoopState rings} → Visits 0 idx s s
    missing :
        {n idx : ℕ} {s : LoopState rings} → get_elem? s.stats idx ≡ none → Visits (suc n) idx s s
    skip :
        {n idx : ℕ} {s t : LoopState rings} {f : FsLatencyStats}
        → get_elem? s.stats idx ≡ some f
        → ¬ Matches f e
        → Visits n (idx + 1) s t
        → Visits (suc n) idx s t
    sample :
        {n idx : ℕ} {s t : LoopState rings} {f : FsLatencyStats}
        → get_elem? s.stats idx ≡ some f
        → Matches f e
        → ¬ IsDue now f
        → Visits n
            (idx + 1)
            (record s { stats = set s.stats idx (unlocked (sampled now ret e f)) })
            t
        → Visits (suc n) idx s t
    lose :
        {n idx : ℕ} {s : LoopState rings} {f : FsLatencyStats}
        → get_elem? s.stats idx ≡ some f
        → Matches f e
        → IsDue now f
        → rings.reserve s.ring ≡ none
        → Visits (suc n) idx s (record s {
          stats = set s.stats idx (unlocked (clear_stats_locked (sampled now ret e f) now));
          drops = count_drop s.drops;
        })
    send :
        {n idx : ℕ} {s t : LoopState rings} {f : FsLatencyStats} {ring : rings.Ring}
        → get_elem? s.stats idx ≡ some f
        → Matches f e
        → IsDue now f
        → Sent cbor rings s.ring ring (
            message_item
              (event_at now s.seq)
              (take_snapshot (sampled now ret e f))
              filpop
              (codes "ns"))
        → Visits n
            (idx + 1)
            (record s {
              seq = add64 s.seq 1;
              stats = set s.stats idx (unlocked (clear_stats_locked (sampled now ret e f) now));
              ring = ring;
            })
            t
        → Visits (suc n) idx s t
