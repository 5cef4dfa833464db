-- ===== src/Fslat/Lock/Conserved.antt =====
-- No sample of a call is lost or counted twice by the statistics of lib.rs, on any CPUs.
use ebpf_ldms.Prelude.{
  ℕ, ◌+◌, ◌%◌, ◌^◌, ◌≡◌, sym, subst, arith, List, [], ◌∷◌, ◌++◌, Bool, true, false, length,
}
use ebpf_ldms.Fslat.Maps.{FsLatencyStats, StatsSnapshot}
use ebpf_ldms.Fslat.Stats.{update_stats_locked, clear_stats_locked, take_snapshot}
use ebpf_ldms.Fslat.Lock.{Sample, Sharing, Moves, calm}
use ebpf_ldms.Fslat.Lock.Serial.{finish_section, finish_all, Moves-IsSerial}

-- The sum of a number of each window.
abbrev pub sum_of : (StatsSnapshot → ℕ) → List StatsSnapshot → ℕ
sum_of g [] = 0
sum_of g (w ∷ windows) = g w + sum_of g windows

sum_of-append :
    (g : StatsSnapshot → ℕ) (windows : List StatsSnapshot) (w : StatsSnapshot)
    → sum_of g (windows ++ (w ∷ [])) ≡ sum_of g windows + g w
sum_of-append g [] w = omega arith
sum_of-append g (v ∷ windows) w = omega (arith, sum_of-append g windows w)

abbrev pub latencies : List (Bool × Sample) → ℕ
latencies [] = 0
latencies ((due, x) ∷ sections) = x.latency + latencies sections

abbrev pub transferred : List (Bool × Sample) → ℕ
transferred [] = 0
transferred ((due, x) ∷ sections) = x.bytes + transferred sections

-- The windows and the statistics hold together what the statistics held at first, and the samples of
-- the sections.
pub record Conserves (start : FsLatencyStats) (sections : List (Bool × Sample)) (f : FsLatencyStats)
    (windows : List StatsSnapshot) : Type 0 where
  pub counts :
      (sum_of (λ w. w.count) windows + f.count) % 2 ^ 64 ≡ (start.count + length sections) % 2 ^ 64
  pub total_lat :
      (sum_of (λ w. w.total_lat) windows + f.total_lat) % 2 ^ 64
      ≡ (start.total_lat + latencies sections) % 2 ^ 64
  pub total_bytes :
      (sum_of (λ w. w.total_bytes) windows + f.total_bytes) % 2 ^ 64
      ≡ (start.total_bytes + transferred sections) % 2 ^ 64

finish_section-Conserves :
    (start : FsLatencyStats) (due : Bool) (x : Sample) (sections : List (Bool × Sample))
    (f : FsLatencyStats) (windows : List StatsSnapshot)
    → Conserves start sections f windows
    → let r = finish_section (due, x) (f, windows) in Conserves start ((due, x) ∷ sections) r.0 r.1
unfolding finish_section update_stats_locked clear_stats_locked take_snapshot
finish_section-Conserves start false x sections f windows c =
    omega (arith, c.counts, c.total_lat, c.total_bytes)
finish_section-Conserves start true x sections f windows c =
    let w = take_snapshot (update_stats_locked f x.latency x.bytes) in
    omega (
      arith,
      c.counts,
      c.total_lat,
      c.total_bytes,
      sum_of-append (λ v. v.count) windows w,
      sum_of-append (λ v. v.total_lat) windows w,
      sum_of-append (λ v. v.total_bytes) windows w,
    )

finish_all-Conserves :
    (start : FsLatencyStats) (sections : List (Bool × Sample))
    → let r = finish_all start sections in Conserves start sections r.0 r.1
unfolding finish_all
finish_all-Conserves start [] = omega arith
finish_all-Conserves start ((due, x) ∷ sections) =
    let (f, windows) = finish_all start sections in
    finish_section-Conserves start due x sections f windows (finish_all-Conserves start sections)

-- However the CPUs interleave at the statistics of a prefix whose lock is free at first: whenever the
-- lock is free again, the counts of the windows that have been handed on and of the current window
-- add up (modulo 2 ^ 64) to the count of before and the calls whose sections have ended, and so do
-- the sums of the latencies and of the bytes.
pub Moves-Conserves :
    (start : FsLatencyStats) (ended : List (Bool × Sample)) (t : Sharing)
    → start.lock ≡ false
    → Moves (calm start) ended t
    → t.stats.lock ≡ false
    → Conserves start ended t.stats t.sent
Moves-Conserves start ended t unheld moves low =
    let w = Moves-IsSerial start unheld ended t moves in
    subst (λ f. Conserves start ended f t.sent) (sym (w.free low))
      (subst (Conserves start ended (finish_all start ended).0) (sym w.sent)
        (finish_all-Conserves start ended))
