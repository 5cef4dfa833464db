-- ===== src/Fslat/Exit/Prefixes.antt =====
-- The prefixes of the statistics, which the loader of
-- producers/fslatency/vfslatency/src/main.rs writes, under the loop of `try_fslat_exit` of lib.rs.
use ebpf_ldms.Prelude.{
  ℕ, ◌≡◌, refl, sym, ap, ◌∙◌, subst, inl, inr, List, Bool-cases, ◌==◌, ==_iff, some, some_injective,
  get_elem?, get_elem?-set_self, get_elem?-set_ne, lt_of_get_elem?, set, arith,
}
use ebpf_ldms.Bpf.RingBuf.{RingBuf}
use ebpf_ldms.Bpf.Encoder.{Encoder}
use ebpf_ldms.Fslat.Maps.{FsLatencyStats, EntryRec, StatsSnapshot}
use ebpf_ldms.Fslat.Stats.{update_stats_locked, clear_stats_locked}
use ebpf_ldms.Fslat.Exit.{LoopState}
use ebpf_ldms.Fslat.Exit.Spec.{sampled, unlocked, Visits, finish, missing, skip, sample, lose, send}

abbrev pub SamePrefix : FsLatencyStats → FsLatencyStats → Type 0
SamePrefix f g = (g.pathlen ≡ f.pathlen) × (g.path_prefix ≡ f.path_prefix)

-- Every entry of the first list stands in the second one, with its prefix.
abbrev pub HasPrefixes : List FsLatencyStats → List FsLatencyStats → Type 0
HasPrefixes xs ys =
    (i : ℕ) (f : FsLatencyStats)
    → get_elem? xs i ≡ some f
    → (g : FsLatencyStats) × (get_elem? ys i ≡ some g) × SamePrefix f g

-- Every entry is still there, with its prefix, and no other entry is.
abbrev pub KeepsPrefixes : List FsLatencyStats → List FsLatencyStats → Type 0
KeepsPrefixes xs ys = HasPrefixes xs ys × HasPrefixes ys xs

pub HasPrefixes-refl : (xs : List FsLatencyStats) → HasPrefixes xs xs
HasPrefixes-refl xs i f at = (f, at, (refl, refl))

pub HasPrefixes-trans :
    (xs ys zs : List FsLatencyStats) → HasPrefixes xs ys → HasPrefixes ys zs → HasPrefixes xs zs
HasPrefixes-trans xs ys zs first second i f at =
    let (g, at', same) = first i f at in
    let (k, at'', same') = second i g at' in (k, at'', (same'.0 ∙ same.0, same'.1 ∙ same.1))

pub KeepsPrefixes-refl : (xs : List FsLatencyStats) → KeepsPrefixes xs xs
KeepsPrefixes-refl xs = (HasPrefixes-refl xs, HasPrefixes-refl xs)

pub KeepsPrefixes-trans :
    (xs ys zs : List FsLatencyStats)
    → KeepsPrefixes xs ys
    → KeepsPrefixes ys zs
    → KeepsPrefixes xs zs
KeepsPrefixes-trans xs ys zs (first, back) (second, back') =
    (HasPrefixes-trans xs ys zs first second, HasPrefixes-trans zs ys xs back' back)

-- The prefix of a message is one that the statistics have.
abbrev pub IsConfigured : List FsLatencyStats → StatsSnapshot → Type 0
IsConfigured stats s =
    (i : ℕ) × (f : FsLatencyStats) × (get_elem? stats i ≡ some f)
    × (s.pathlen ≡ f.pathlen)
    × (s.path_prefix ≡ f.path_prefix)

pub IsConfigured-earlier :
    (xs ys : List FsLatencyStats) (s : StatsSnapshot)
    → HasPrefixes xs ys
    → IsConfigured xs s
    → IsConfigured ys s
IsConfigured-earlier xs ys s has (i, f, at, pathlen, path_prefix) =
    let (g, at', same) = has i f at in (i, g, at', pathlen ∙ sym same.0, path_prefix ∙ sym same.1)

set-HasPrefixes :
    (xs : List FsLatencyStats) (idx : ℕ) (f g : FsLatencyStats)
    → get_elem? xs idx ≡ some f
    → SamePrefix f g
    → HasPrefixes xs (set xs idx g)
set-HasPrefixes xs idx f g at same i k at' = elim (Bool-cases (idx == i)) [
  | inl here ↦
      let e = (==_iff idx i).0 here in
      let is : f ≡ k = some_injective f k (sym at ∙ (ap (get_elem? xs) e ∙ at')) in
      (
        g,
        ap (get_elem? (set xs idx g)) (sym e)
            ∙ get_elem?-set_self xs idx g (lt_of_get_elem? xs idx f at),
        subst (λ v. SamePrefix v g) is same,
      )
  | inr other ↦ (k, get_elem?-set_ne xs idx i g (λ e. absurd (ground arith)) ∙ at', (refl, refl))
]

HasPrefixes-set :
    (xs : List FsLatencyStats) (idx : ℕ) (f g : FsLatencyStats)
    → get_elem? xs idx ≡ some f
    → SamePrefix f g
    → HasPrefixes (set xs idx g) xs
HasPrefixes-set xs idx f g at same i k at' = elim (Bool-cases (idx == i)) [
  | inl here ↦
      let e = (==_iff idx i).0 here in
      let self = get_elem?-set_self xs idx g (lt_of_get_elem? xs idx f at) in
      let is : g ≡ k = some_injective g k (sym self ∙ (ap (get_elem? (set xs idx g)) e ∙ at')) in
      (f, ap (get_elem? xs) (sym e) ∙ at, subst (λ v. SamePrefix v f) is (sym same.0, sym same.1))
  | inr other ↦
      (k, sym (get_elem?-set_ne xs idx i g (λ e. absurd (ground arith))) ∙ at', (refl, refl))
]

pub set-KeepsPrefixes :
    (xs : List FsLatencyStats) (idx : ℕ) (f g : FsLatencyStats)
    → get_elem? xs idx ≡ some f
    → SamePrefix f g
    → KeepsPrefixes xs (set xs idx g)
set-KeepsPrefixes xs idx f g at same =
    (set-HasPrefixes xs idx f g at same, HasPrefixes-set xs idx f g at same)

pub sampled-SamePrefix :
    (now ret : ℕ) (e : EntryRec) (f : FsLatencyStats)
    → SamePrefix f (unlocked (sampled now ret e f))
unfolding update_stats_locked
sampled-SamePrefix now ret e f = (refl, refl)

pub renewed-SamePrefix :
    (now ret : ℕ) (e : EntryRec) (f : FsLatencyStats)
    → SamePrefix f (unlocked (clear_stats_locked (sampled now ret e f) now))
unfolding update_stats_locked clear_stats_locked
renewed-SamePrefix now ret e f = (refl, refl)

module _ (rings : RingBuf 1024) (cbor : Encoder) (filpop : List ℕ) (now ret : ℕ)
    (e : EntryRec) where
  pub Visits-KeepsPrefixes :
      (n idx : ℕ) (s t : LoopState rings)
      → Visits rings cbor filpop now ret e n idx s t
      → KeepsPrefixes s.stats t.stats
  Visits-KeepsPrefixes n idx s t finish = KeepsPrefixes-refl s.stats
  Visits-KeepsPrefixes n idx s t (missing at) = KeepsPrefixes-refl s.stats
  Visits-KeepsPrefixes n idx s t (skip at m v) = Visits-KeepsPrefixes _ _ s t v
  Visits-KeepsPrefixes n idx s t (sample {f} at m d v) =
      KeepsPrefixes-trans s.stats _ t.stats
        (set-KeepsPrefixes s.stats idx f _ at (sampled-SamePrefix now ret e f))
        (Visits-KeepsPrefixes _ _ _ t v)
  Visits-KeepsPrefixes n idx s t (lose {f} at m d r) =
      set-KeepsPrefixes s.stats idx f _ at (renewed-SamePrefix now ret e f)
  Visits-KeepsPrefixes n idx s t (send {f} at m d sent v) =
      KeepsPrefixes-trans s.stats _ t.stats
        (set-KeepsPrefixes s.stats idx f _ at (renewed-SamePrefix now ret e f))
        (Visits-KeepsPrefixes _ _ _ t v)
