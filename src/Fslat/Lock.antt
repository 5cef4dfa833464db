-- ===== src/Fslat/Lock.antt =====
-- What `try_fslat_exit` of producers/fslatency/vfslatency-common/src/lib.rs does to the statistics of
-- one prefix, which all CPUs share, statement by statement: the test of the window before the spin
-- lock is taken, and the statements under the lock. A 64-bit load or store is one step.
pub mod Doubled
pub mod Finishing
pub mod Serial
pub mod Visiting
pub mod Conserved
use ebpf_ldms.Prelude.{
  ℕ, ◌≡◌, List, [], ◌∷◌, ◌++◌, Bool, true, false, ltb, ◌==◌, ◌||◌, if◌then◌else◌, add64, sub64,
  u64_max, set_at,
}
use ebpf_ldms.Fslat.Maps.{FsLatencyStats, StatsSnapshot, agg_interval}

-- A call that ends: the time of its end, its latency and its bytes.
pub record Sample : Type 0 where
  pub now : ℕ
  pub latency : ℕ
  pub bytes : ℕ

-- The accesses of `update_stats_locked`, of the snapshot and of `clear_stats_locked`.
pub data Statement : Type 0 where
  load_min store_min load_max store_max : Statement
  load_count store_count load_total_lat store_total_lat : Statement
  load_total_bytes store_total_bytes : Statement
  copy_pathlen copy_path_prefix copy_min copy_max : Statement
  copy_total_lat copy_total_bytes copy_count : Statement
  clear_lastpublish clear_min clear_max : Statement
  clear_total_lat clear_total_bytes clear_count : Statement

-- The shared statistics, and what the CPU has of its own: the last value loaded, and the snapshot.
pub record Working : Type 0 where
  pub stats : FsLatencyStats
  pub loaded : ℕ
  pub snapshot : StatsSnapshot

-- A store under a condition leaves what is there where the condition fails.
unfoldable pub execute : Sample → Statement → Working → Working
execute x load_min w = record w { loaded = w.stats.min }
execute x store_min w = record w {
  stats = record (w.stats) {
    min = if ltb x.latency w.loaded || w.loaded == 0 then x.latency else w.stats.min;
  };
}
execute x load_max w = record w { loaded = w.stats.max }
execute x store_max w = record w {
  stats = record (w.stats) {
    max = if ltb w.loaded x.latency || w.loaded == 0 then x.latency else w.stats.max;
  };
}
execute x load_count w = record w { loaded = w.stats.count }
execute x store_count w = record w { stats = record (w.stats) { count = add64 w.loaded 1 } }
execute x load_total_lat w = record w { loaded = w.stats.total_lat }
execute x store_total_lat w = record w {
  stats = record (w.stats) { total_lat = add64 w.loaded x.latency };
}
execute x load_total_bytes w = record w { loaded = w.stats.total_bytes }
execute x store_total_bytes w = record w {
  stats = record (w.stats) { total_bytes = add64 w.loaded x.bytes };
}
execute x copy_pathlen w = record w { snapshot = record (w.snapshot) { pathlen = w.stats.pathlen } }
execute x copy_path_prefix w = record w {
  snapshot = record (w.snapshot) { path_prefix = w.stats.path_prefix };
}
execute x copy_min w = record w { snapshot = record (w.snapshot) { min = w.stats.min } }
execute x copy_max w = record w { snapshot = record (w.snapshot) { max = w.stats.max } }
execute x copy_total_lat w = record w {
  snapshot = record (w.snapshot) { total_lat = w.stats.total_lat };
}
execute x copy_total_bytes w = record w {
  snapshot = record (w.snapshot) { total_bytes = w.stats.total_bytes };
}
execute x copy_count w = record w { snapshot = record (w.snapshot) { count = w.stats.count } }
execute x clear_lastpublish w = record w { stats = record (w.stats) { lastpublish = x.now } }
execute x clear_min w = record w { stats = record (w.stats) { min = u64_max } }
execute x clear_max w = record w { stats = record (w.stats) { max = 0 } }
execute x clear_total_lat w = record w { stats = record (w.stats) { total_lat = 0 } }
execute x clear_total_bytes w = record w { stats = record (w.stats) { total_bytes = 0 } }
execute x clear_count w = record w { stats = record (w.stats) { count = 0 } }

abbrev pub update_statements : List Statement
update_statements =
    load_min ∷ store_min ∷ load_max ∷ store_max ∷ load_count ∷ store_count ∷ load_total_lat
    ∷ store_total_lat ∷ load_total_bytes ∷ store_total_bytes ∷ []

abbrev pub publish_statements : List Statement
publish_statements =
    copy_pathlen ∷ copy_path_prefix ∷ copy_min ∷ copy_max ∷ copy_total_lat ∷ copy_total_bytes
    ∷ copy_count ∷ clear_lastpublish ∷ clear_min ∷ clear_max ∷ clear_total_lat ∷ clear_total_bytes
    ∷ clear_count ∷ []

-- What stands under the lock, where the window is due and where it is not.
abbrev pub section_of : Bool → List Statement
section_of true = update_statements ++ publish_statements
section_of false = update_statements

-- Where a CPU is: elsewhere, behind the test of the window, or under the lock with the statements
-- that are left, the last value loaded and the snapshot.
pub data Place : Type 0 where
  away : Place
  tested : Bool → Sample → Place
  inside : Bool → Sample → List Statement → ℕ → StatsSnapshot → Place

-- The statistics with their lock, where each CPU is, and the windows that have been handed on.
pub record Sharing : Type 0 where
  pub stats : FsLatencyStats
  pub places : ℕ → Place
  pub sent : List StatsSnapshot

abbrev pub is_due : ℕ → FsLatencyStats → Bool
is_due now s = ltb agg_interval (sub64 now s.lastpublish)

-- A window leaves the section only where it was due.
abbrev pub hand_on : Bool → StatsSnapshot → List StatsSnapshot → List StatsSnapshot
hand_on true w sent = sent ++ (w ∷ [])
hand_on false w sent = sent

abbrev pub at_work : FsLatencyStats → ℕ → StatsSnapshot → Working
at_work f loaded snapshot = record { stats = f; loaded = loaded; snapshot = snapshot }

-- The state after a statement under the lock.
abbrev pub put_back : Sharing → ℕ → Bool → Sample → List Statement → Working → Sharing
put_back s cpu due x rest w = record s {
  stats = w.stats;
  places = set_at s.places cpu (inside due x rest w.loaded w.snapshot);
}

-- A step of one CPU, and the sections that it ends, none or one. `bpf_spin_lock` waits until the
-- lock is free. What the CPU has of its own is unknown at first.
pub data Move (cpu : ℕ) (s : Sharing) : List (Bool × Sample) → Sharing → Type 0 where
  tests :
      (x : Sample)
      → s.places cpu ≡ away
      → Move cpu s [] (record s { places = set_at s.places cpu (tested (is_due x.now s.stats) x) })
  locks :
      {due : Bool} {x : Sample} (loaded : ℕ) (snapshot : StatsSnapshot)
      → s.places cpu ≡ tested due x
      → s.stats.lock ≡ false
      → Move cpu s [] (record s {
        stats = record (s.stats) { lock = true };
        places = set_at s.places cpu (inside due x (section_of due) loaded snapshot);
      })
  executes :
      {due : Bool} {x : Sample} {statement : Statement} {rest : List Statement} {loaded : ℕ}
      {snapshot : StatsSnapshot}
      → s.places cpu ≡ inside due x (statement ∷ rest) loaded snapshot
      → Move cpu s []
          (put_back s cpu due x rest (execute x statement (at_work s.stats loaded snapshot)))
  unlocks :
      {due : Bool} {x : Sample} {loaded : ℕ} {snapshot : StatsSnapshot}
      → s.places cpu ≡ inside due x [] loaded snapshot
      → Move cpu s ((due, x) ∷ []) (record {
        stats = record (s.stats) { lock = false };
        places = set_at s.places cpu away;
        sent = hand_on due snapshot s.sent;
      })

-- Steps of any CPUs in any order, and the sections that they end, the latest first.
pub data Moves (s : Sharing) : List (Bool × Sample) → Sharing → Type 0 where
  none_yet : Moves s [] s
  one_more :
      {cpu : ℕ} {ended new : List (Bool × Sample)} {t u : Sharing}
      → Moves s ended t
      → Move cpu t new u
      → Moves s (new ++ ended) u

-- No CPU is at the statistics, and no window has been handed on.
abbrev pub calm : FsLatencyStats → Sharing
calm f = record { stats = f; places = λ c. away; sent = [] }
