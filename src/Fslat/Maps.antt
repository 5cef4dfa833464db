-- ===== src/Fslat/Maps.antt =====
-- producers/fslatency/vfslatency-common/src/constants.rs and the structs of maps.rs.
-- A byte is a number below 256, a byte array is a list, an unsigned word is a number.
use ebpf_ldms.Prelude.{ℕ, ◌*◌, ◌≡◌, List, Bool, length}

abbrev pub pathfraglen : ℕ
pathfraglen = 32

abbrev pub pathcomplen : ℕ
pathcomplen = pathfraglen

abbrev pub num_path_prefix : ℕ
num_path_prefix = 8

-- One second, in nanoseconds.
abbrev pub agg_interval : ℕ
agg_interval = 1000 * 1000 * 1000

abbrev pub bufsize : ℕ
bufsize = 1024

abbrev pub num_comp : ℕ
num_comp = 16

abbrev pub max_parent : ℕ
max_parent = 32

abbrev pub max_parent_loop : ℕ
max_parent_loop = 64

-- `PathSlice` and `PathCompSlice`: byte arrays, whose length `IsPathSlice` states.
abbrev pub PathSlice : Type 0
PathSlice = List ℕ

abbrev pub IsPathSlice : PathSlice → Type 0
IsPathSlice p = length p ≡ pathfraglen

abbrev pub PidTgid : Type 0
PidTgid = ℕ × ℕ

-- One of the last path components that the walk has seen.
pub record PathComponent : Type 0 where
  pub len : ℕ
  pub pathcomp : PathSlice

-- The entry of a statistics map for one path prefix. `lock` tells whether the spin lock is held.
pub record FsLatencyStats : Type 0 where
  pub lock : Bool
  pub pathlen : ℕ
  pub path_prefix : PathSlice
  pub min : ℕ
  pub max : ℕ
  pub total_lat : ℕ
  pub total_bytes : ℕ
  pub count : ℕ
  pub lastpublish : ℕ

pub record EntryRec : Type 0 where
  pub timestamp : ℕ
  pub path : PathSlice

-- A string is the list of its bytes.
pub record EventFields : Type 0 where
  pub id : List ℕ
  pub monotonic : ℕ
  pub seq : ℕ

pub record StatsSnapshot : Type 0 where
  pub pathlen : ℕ
  pub path_prefix : PathSlice
  pub min : ℕ
  pub max : ℕ
  pub total_lat : ℕ
  pub total_bytes : ℕ
  pub count : ℕ
