-- ===== src/Fslat/Exit/WellFormed.antt =====
-- Well-formed statistics, and the operations of lib.rs on them.
use Prim.Native.Nat.{min}
use ebpf_ldms.Prelude.{
  ℕ, ◌≤◌, ◌≡◌, arith, ◌∙◌, sym, subst, length-set, ap, inl, inr, List, some, get_elem?, set, length,
  length-take, codes, IsU64, Bool-cases, some_injective, lt_of_get_elem?, get_elem?-set_self,
  get_elem?-set_ne, ◌==◌, ==_iff,
}
use ebpf_ldms.Fslat.Maps.{FsLatencyStats, IsPathSlice}
use ebpf_ldms.Fslat.Stats.{update_stats_locked, clear_stats_locked, take_snapshot}
use ebpf_ldms.Fslat.Message.Cbor.{IsItem}
use ebpf_ldms.Fslat.Message.Put.{message_item, metrics_item}
use ebpf_ldms.Fslat.Exit.{event_at}
use ebpf_ldms.Fslat.Exit.Spec.{unlocked}

-- The statistics hold a prefix of its size and u64 numbers.
pub record IsStats (s : FsLatencyStats) : Type 0 where
  pub path_prefix : IsPathSlice s.path_prefix
  pub min : IsU64 s.min
  pub max : IsU64 s.max
  pub total_lat : IsU64 s.total_lat
  pub total_bytes : IsU64 s.total_bytes
  pub count : IsU64 s.count

abbrev pub AllStats : List FsLatencyStats → Type 0
AllStats xs = (i : ℕ) (s : FsLatencyStats) → get_elem? xs i ≡ some s → IsStats s

pub set-AllStats :
    (xs : List FsLatencyStats) (i : ℕ) (s : FsLatencyStats)
    → AllStats xs
    → IsStats s
    → AllStats (set xs i s)
set-AllStats xs i s all good j t e = elim (Bool-cases (i == j)) [
  | inl same ↦
      let at : get_elem? (set xs j s) j ≡ some t =
        ap (λ k. get_elem? (set xs k s) j) (sym ((==_iff i j).0 same)) ∙ e in
      let size = length-set xs j s in
      let lt = lt_of_get_elem? (set xs j s) j t at in
      let is : s ≡ t = some_injective s t (sym (get_elem?-set_self xs j s (omega arith)) ∙ at) in
      subst IsStats is good
  | inr other ↦ all j t (sym (get_elem?-set_ne xs i j s (λ f. absurd (ground arith))) ∙ e)
]

pub update-IsStats :
    (s : FsLatencyStats) (l b : ℕ) → IsU64 l → IsStats s → IsStats (update_stats_locked s l b)
unfolding update_stats_locked
update-IsStats s l b u w = ground arith

pub clear-IsStats : (s : FsLatencyStats) (now : ℕ) → IsStats s → IsStats (clear_stats_locked s now)
unfolding clear_stats_locked
clear-IsStats s now w = ground arith

pub unlocked-IsStats : (s : FsLatencyStats) → IsStats s → IsStats (unlocked s)
unlocked-IsStats s w = ground arith

-- The message of such statistics is one that `ringbuf_put` can send.
pub message-IsItem :
    (s : FsLatencyStats) (now seq : ℕ) (filpop : List ℕ)
    → IsStats s
    → IsU64 now
    → IsU64 seq
    → length filpop ≤ 500
    → IsItem (message_item (event_at now seq) (take_snapshot s) filpop (codes "ns"))
unfolding message_item metrics_item take_snapshot
message-IsItem s now seq filpop w un us short =
    ground (arith, length-take (min s.pathlen 32) s.path_prefix)
