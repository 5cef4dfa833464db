-- ===== src/Fslat/Stats/Summary.antt =====
-- What the running statistics of lib.rs hold of the samples of a window.
use ebpf_ldms.Prelude.{
  ℕ, ◌+◌, ◌%◌, ◌^◌, ◌<◌, ◌≡◌, List, [], ◌∷◌, ◌++◌, ◌∙◌, ap, length, arith, IsU64, u64_max,
}
use ebpf_ldms.Fslat.Maps.{FsLatencyStats}
use ebpf_ldms.Fslat.Stats.{update_stats_locked, clear_stats_locked, update_all}
use Prim.Native.Nat.{min, max}

-- The least latency, or the largest u64 of no samples.
abbrev pub least : List (ℕ × ℕ) → ℕ
least [] = u64_max
least ((l, b) ∷ xs) = min l (least xs)

abbrev pub greatest : List (ℕ × ℕ) → ℕ
greatest [] = 0
greatest ((l, b) ∷ xs) = max l (greatest xs)

abbrev pub sum_latency : List (ℕ × ℕ) → ℕ
sum_latency [] = 0
sum_latency ((l, b) ∷ xs) = l + sum_latency xs

abbrev pub sum_bytes : List (ℕ × ℕ) → ℕ
sum_bytes [] = 0
sum_bytes ((l, b) ∷ xs) = b + sum_bytes xs

-- Every latency is a u64 other than zero.
abbrev pub Positive : List (ℕ × ℕ) → Type 0
Positive [] = Unit {0}
Positive ((l, b) ∷ xs) = (0 < l) × IsU64 l × Positive xs

-- What is in the statistics `t` after the samples `xs` came on top of `s`.
pub record Sums (s : FsLatencyStats) (xs : List (ℕ × ℕ)) (t : FsLatencyStats) : Type 0 where
  pub latencies : t.total_lat ≡ (s.total_lat + sum_latency xs) % 2 ^ 64
  pub bytes : t.total_bytes ≡ (s.total_bytes + sum_bytes xs) % 2 ^ 64
  pub counts : t.count ≡ (s.count + length xs) % 2 ^ 64

pub record IsWordy (s : FsLatencyStats) : Type 0 where
  pub total_lat : IsU64 s.total_lat
  pub total_bytes : IsU64 s.total_bytes
  pub count : IsU64 s.count

-- The sums and the count are exact modulo 2 ^ 64, whatever the samples are.
pub update_all-Sums :
    (s : FsLatencyStats) (xs : List (ℕ × ℕ)) → IsWordy s → Sums s xs (update_all s xs)
unfolding update_all update_stats_locked
update_all-Sums s [] w = omega arith
update_all-Sums s ((l, b) ∷ xs) w =
    let ih = update_all-Sums (update_stats_locked s l b) xs (omega arith) in omega (arith, ih)

update_all-max :
    (s : FsLatencyStats) (xs : List (ℕ × ℕ)) → (update_all s xs).max ≡ max s.max (greatest xs)
unfolding update_all update_stats_locked
update_all-max s [] = omega arith
update_all-max s ((l, b) ∷ xs) = ground (arith, update_all-max (update_stats_locked s l b) xs)

update_all-min :
    (s : FsLatencyStats) (xs : List (ℕ × ℕ))
    → 0 < s.min
    → IsU64 s.min
    → Positive xs
    → (update_all s xs).min ≡ min s.min (least xs)
unfolding update_all update_stats_locked
update_all-min s [] h u p = omega arith
update_all-min s ((l, b) ∷ xs) h u (hl, ul, p) =
    ground (arith, update_all-min (update_stats_locked s l b) xs)

least-IsU64 : (xs : List (ℕ × ℕ)) → Positive xs → IsU64 (least xs)
least-IsU64 [] p = omega arith
least-IsU64 ((l, b) ∷ xs) p = omega (arith, least-IsU64 xs p.2)

-- What no sample changes.
pub record SameWindow (s t : FsLatencyStats) : Type 0 where
  pub pathlen : t.pathlen ≡ s.pathlen
  pub path_prefix : t.path_prefix ≡ s.path_prefix
  pub lastpublish : t.lastpublish ≡ s.lastpublish
  pub lock : t.lock ≡ s.lock

pub update_all-SameWindow :
    (s : FsLatencyStats) (xs : List (ℕ × ℕ)) → SameWindow s (update_all s xs)
unfolding update_all update_stats_locked
update_all-SameWindow s [] = ground arith
update_all-SameWindow s ((l, b) ∷ xs) =
    ground (arith, update_all-SameWindow (update_stats_locked s l b) xs)

-- The statistics `t` are those of the samples `xs`, in a window that began at `start`.
pub record Describes (start : ℕ) (xs : List (ℕ × ℕ)) (t : FsLatencyStats) : Type 0 where
  pub min : t.min ≡ least xs
  pub max : t.max ≡ greatest xs
  pub total_lat : t.total_lat ≡ sum_latency xs % 2 ^ 64
  pub total_bytes : t.total_bytes ≡ sum_bytes xs % 2 ^ 64
  pub count : t.count ≡ length xs % 2 ^ 64
  pub lastpublish : t.lastpublish ≡ start

-- After `clear_stats_locked` at time `now`, the statistics that `update_stats_locked` makes of any
-- samples with latencies above zero are the least and the greatest latency, and the two sums and
-- the count modulo 2 ^ 64; the prefix and its length are those from before.
pub update_all-clear :
    (s : FsLatencyStats) (now : ℕ) (xs : List (ℕ × ℕ))
    → Positive xs
    → let t = update_all (clear_stats_locked s now) xs in
      Describes now xs t × (t.pathlen ≡ s.pathlen) × (t.path_prefix ≡ s.path_prefix)
unfolding clear_stats_locked
update_all-clear s now xs p =
    let c = clear_stats_locked s now in
    let w : IsWordy c = omega arith in
    let lo = update_all-min c xs (omega arith) (omega arith) p in
    let same = update_all-SameWindow c xs in
    (
      ground (arith, least-IsU64 xs p, lo, update_all-max c xs, update_all-Sums c xs w, same),
      same.pathlen,
      same.path_prefix,
    )

-- An entry as the loader writes it, with zeros in all its counters, is described by the samples
-- that come after, when there is one and the latencies are above zero.
update_all_loaded :
    (s : FsLatencyStats) (l b : ℕ) (xs : List (ℕ × ℕ))
    → s.min ≡ 0
    → s.max ≡ 0
    → s.total_lat ≡ 0
    → s.total_bytes ≡ 0
    → s.count ≡ 0
    → Positive ((l, b) ∷ xs)
    → Describes s.lastpublish ((l, b) ∷ xs) (update_all s ((l, b) ∷ xs))
unfolding update_all update_stats_locked
update_all_loaded s l b xs emin emax elat ebytes ecount (hl, ul, p) =
    let c = update_stats_locked s l b in
    ground (
      arith,
      update_all-min c xs,
      update_all-max c xs,
      update_all-Sums c xs (omega arith),
      update_all-SameWindow c xs,
    )

-- The sample behind one of latency zero replaces it as the least latency.
update_stats_locked-zero :
    (s : FsLatencyStats) (l b c : ℕ) → (update_stats_locked (update_stats_locked s 0 b) l c).min ≡ l
unfolding update_stats_locked
update_stats_locked-zero s l b c = ground arith

-- A sample of latency zero makes the least latency forget all samples before it, and itself: behind
-- it come samples with latencies above zero, at least one, and the least of these is what the
-- statistics hold, whatever they held before.
pub update_all-zero :
    (s : FsLatencyStats) (before : List (ℕ × ℕ)) (b l c : ℕ) (after : List (ℕ × ℕ))
    → Positive ((l, c) ∷ after)
    → (update_all s (before ++ ((0, b) ∷ (l, c) ∷ after))).min ≡ least ((l, c) ∷ after)
unfolding update_all
update_all-zero s [] b l c after (hl, ul, p) =
    let t = update_stats_locked (update_stats_locked s 0 b) l c in
    let e : t.min ≡ l = update_stats_locked-zero s l b c in
    update_all-min t after (omega (arith, e)) (omega (arith, e)) p ∙ ap (λ m. min m (least after)) e
update_all-zero s ((k, d) ∷ before) b l c after p =
    update_all-zero (update_stats_locked s k d) before b l c after p
