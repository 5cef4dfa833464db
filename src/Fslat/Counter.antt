-- ===== src/Fslat/Counter.antt =====
-- The accesses of `try_fslat_exit` of producers/fslatency/vfslatency-common/src/lib.rs to the map
-- COUNTER, which all CPUs share and no lock guards, as steps that interleave.
pub mod Races
use ebpf_ldms.Prelude.{
  set_at, set_at_self, set_at_ne, ℕ, ◌+◌, ◌≡◌, List, [], ◌∷◌, ◌++◌, ◌==◌, if◌then◌else◌, add64,
}

-- Where a CPU is in the publishing of a window: outside, with the number that `seq: *countptr` has
-- read, with its message in the ring, or inside `*countptr += 1` with the value that it has loaded.
pub data Progress : Type 0 where
  outside delivered : Progress
  numbered loaded : ℕ → Progress

-- The number behind `countptr`, what each CPU is at, and the numbers of the messages in the ring.
pub record Counting : Type 0 where
  pub counter : ℕ
  pub progress : ℕ → Progress
  pub sent : List ℕ

-- A step of one CPU, and the publishings that it ends, none or one.
pub data Access (cpu : ℕ) (s : Counting) : ℕ → Counting → Type 0 where
  reads :
      s.progress cpu ≡ outside
      → Access cpu s 0 (record s { progress = set_at s.progress cpu (numbered s.counter) })
  puts :
      {n : ℕ}
      → s.progress cpu ≡ numbered n
      → Access cpu s 0
          (record s { progress = set_at s.progress cpu delivered; sent = s.sent ++ (n ∷ []) })
  fails :
      {n : ℕ}
      → s.progress cpu ≡ numbered n
      → Access cpu s 0 (record s { progress = set_at s.progress cpu outside })
  loads :
      s.progress cpu ≡ delivered
      → Access cpu s 0 (record s { progress = set_at s.progress cpu (loaded s.counter) })
  stores :
      {n : ℕ}
      → s.progress cpu ≡ loaded n
      → Access cpu s 1 (record s { counter = add64 n 1; progress = set_at s.progress cpu outside })

-- Steps of any CPUs in any order, and the publishings that they end.
pub data Accesses (s : Counting) : ℕ → Counting → Type 0 where
  none_yet : Accesses s 0 s
  one_more :
      {cpu n k : ℕ} {t u : Counting} → Accesses s n t → Access cpu t k u → Accesses s (n + k) u
