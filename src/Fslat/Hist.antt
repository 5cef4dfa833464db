-- ===== src/Fslat/Hist.antt =====
-- The profiling maps: `log2_bucket`, `hist_increment` and `check_prof_reset` of
-- producers/fslatency/vfslatency-common/src/lib.rs.
pub mod Buckets
pub mod Reset
use ebpf_ldms.Prelude.{
  ℕ, zero, suc, ◌+◌, ◌-◌, ◌^◌, List, Option, some, none, get_elem?, set, ltb, ◌==◌, if◌then◌else◌,
  add64,
}
use ebpf_ldms.Bpf.HashMap.{HashMap}

-- `leading_zeros` of an unsigned integer of `n` bits.
unfoldable pub leading_zeros : ℕ → ℕ → ℕ
leading_zeros zero v = 0
leading_zeros (suc n) v = if ltb v (2 ^ n) then suc (leading_zeros n v) else 0

unfoldable pub log2_bucket : ℕ → ℕ
log2_bucket val = if val == 0 then 0 else 64 - leading_zeros 64 val

module _ (h : HashMap ℕ ℕ) where
  unfoldable pub hist_increment : h.Map → ℕ → h.Map
  hist_increment hist bucket = elim (h.get hist bucket) [
    | some count ↦ h.store hist bucket (add64 count 1)
    | none ↦ elim (h.insert hist bucket 1) [ some hist' ↦ hist' | none ↦ hist ]
  ]

  -- The maps whose names begin with PROF. An array map of one value is a list.
  pub record Prof : Type 0 where
    pub ctrl : List ℕ
    pub path_res : h.Map
    pub path_walk : h.Map
    pub path_assembly : h.Map
    pub exit : h.Map
    pub walk_iters : h.Map
    pub ringbuf_drops : List ℕ

  unfoldable pub remove_bucket : Prof → ℕ → Prof
  remove_bucket p i = record p {
    path_res = h.remove p.path_res i;
    path_walk = h.remove p.path_walk i;
    path_assembly = h.remove p.path_assembly i;
    exit = h.remove p.exit i;
    walk_iters = h.remove p.walk_iters i;
  }

  -- `for i in 0u32..64`, with the rounds left and the next bucket.
  unfoldable pub remove_buckets : ℕ → ℕ → Prof → Prof
  remove_buckets zero i p = p
  remove_buckets (suc n) i p = remove_buckets n (i + 1) (remove_bucket p i)

  -- `now` is what `bpf_ktime_get_ns` returns if the reset is asked for.
  unfoldable pub check_prof_reset : ℕ → Prof → Prof
  check_prof_reset now p = elim (get_elem? p.ctrl 0) [
    | none ↦ p
    | some ctrl ↦
        if ctrl == 1
        then (let q = remove_buckets 64 0 p in record q { ctrl = set q.ctrl 0 now })
        else p
  ]
