-- ===== src/Fslat/Exit/Covers.antt =====
-- How far the visits of the prefixes in `try_fslat_exit` of lib.rs come, and what becomes of the
-- statistics that they reach.
use ebpf_ldms.Prelude.{
  ℕ, suc, ◌+◌, ◌≤◌, ◌<◌, ◌≡◌, ◌≢◌, refl, sym, subst, ap, ◌∙◌, arith, ◌⊎◌, inl, inr, List, some,
  none, get_elem?, get_elem?-lt, lt_of_get_elem?, get_elem?-set_self, get_elem?-set_ne,
  some_injective, set,
}
use ebpf_ldms.Bpf.RingBuf.{RingBuf}
use ebpf_ldms.Bpf.Encoder.{Encoder}
use ebpf_ldms.Fslat.Maps.{FsLatencyStats, EntryRec}
use ebpf_ldms.Fslat.Stats.{clear_stats_locked}
use ebpf_ldms.Fslat.Exit.{LoopState, count_drop}
use ebpf_ldms.Fslat.Exit.Spec.{
  Matches, IsDue, sampled, unlocked, Visits, finish, missing, skip, sample, lose, send,
}

pub get_elem?-none :
    (xs : List FsLatencyStats) (i j : ℕ) (f : FsLatencyStats)
    → get_elem? xs i ≡ none
    → i ≤ j
    → get_elem? xs j ≢ some f
get_elem?-none xs i j f e le at =
    let lt = lt_of_get_elem? xs j f at in let (a, found) = get_elem?-lt xs i (omega arith) in cc

pub reached_or_behind : (i n : ℕ) → (i < n) ⊎ (n ≤ i)
reached_or_behind i n = ground arith

module _ (now ret : ℕ) (e : EntryRec) where
  abbrev pub renewal : FsLatencyStats → FsLatencyStats
  renewal f = unlocked (clear_stats_locked (sampled now ret e f) now)

  -- The statistics of a visited prefix before and after: as they were, if the prefix is none of the
  -- path's; or with the sample in them; or begun anew.
  pub data Fate (f : FsLatencyStats) : FsLatencyStats → Type 0 where
    other : ¬ Matches f e → Fate f f
    counted : Matches f e → ¬ IsDue now f → Fate f (unlocked (sampled now ret e f))
    renewed : Matches f e → IsDue now f → Fate f (renewal f)

module _ (rings : RingBuf 1024) (cbor : Encoder) (filpop : List ℕ) (now ret : ℕ)
    (e : EntryRec) where
  -- Where the visits from one prefix on end: with the last prefix and no drop, or right behind the
  -- first prefix whose window was due and whose message found no room, which is counted.
  pub data EndsAt (first last reached : ℕ) (stats : List FsLatencyStats) (drops drops' : List ℕ)
      (ring' : rings.Ring) : Type 0 where
    at_last : last ≤ reached → drops' ≡ drops → EndsAt first last reached stats drops drops' ring'
    at_drop :
        (i : ℕ) (f : FsLatencyStats)
        → first ≤ i
        → reached ≡ i + 1
        → get_elem? stats i ≡ some f
        → Matches f e
        → IsDue now f
        → rings.reserve ring' ≡ none
        → drops' ≡ count_drop drops
        → EndsAt first last reached stats drops drops' ring'

  module _ (s : LoopState rings) (i idx : ℕ) (f g : FsLatencyStats) where
    pub same_entry : get_elem? s.stats idx ≡ some g → get_elem? s.stats i ≡ some f → i ≡ idx → g ≡ f
    same_entry eg ef same = some_injective g f (sym eg ∙ (ap (get_elem? s.stats) (sym same) ∙ ef))

    pub untouched :
        (v : FsLatencyStats)
        → get_elem? s.stats i ≡ some f
        → idx + 1 ≤ i
        → get_elem? (set s.stats idx v) i ≡ some f
    untouched v ef lt = get_elem?-set_ne s.stats idx i v (λ q. absurd (omega arith)) ∙ ef

  pub below_or_at : (i idx : ℕ) → idx ≤ i → (i ≡ idx) ⊎ (idx + 1 ≤ i)
  below_or_at i idx le = ground arith

  -- What visits of the prefixes from `first` up to `last` come to: those before `reached` meet their
  -- fate, and all others stay as they are.
  pub record Covers (first last : ℕ) (s t : LoopState rings) : Type 0 where
    pub reached : ℕ
    pub begun : first ≤ reached
    pub before : (i : ℕ) → i < first → get_elem? t.stats i ≡ get_elem? s.stats i
    pub fates :
        (i : ℕ) (f : FsLatencyStats)
        → first ≤ i
        → i < reached
        → get_elem? s.stats i ≡ some f
        → (f' : FsLatencyStats) × (get_elem? t.stats i ≡ some f') × Fate now ret e f f'
    pub rest : (i : ℕ) → reached ≤ i → get_elem? t.stats i ≡ get_elem? s.stats i
    pub stops : EndsAt first last reached s.stats s.drops t.drops t.ring

  module _ (n idx : ℕ) (s u t : LoopState rings) (g v : FsLatencyStats)
      (eg : get_elem? s.stats idx ≡ some g) (here : get_elem? u.stats idx ≡ some v)
      (fate : Fate now ret e g v)
      (apart : (i : ℕ) → i ≢ idx → get_elem? u.stats i ≡ get_elem? s.stats i)
      (same_drops : u.drops ≡ s.drops) (c : Covers (idx + 1) (idx + 1 + n) u t) where
    EndsAt-earlier :
        EndsAt (idx + 1) (idx + 1 + n) c.reached u.stats u.drops t.drops t.ring
        → EndsAt idx (idx + suc n) c.reached s.stats s.drops t.drops t.ring
    EndsAt-earlier (at_last le d) = at_last (omega arith) (d ∙ same_drops)
    EndsAt-earlier (at_drop i f le r at m due full d) =
        at_drop i f (omega arith) r (sym (apart i (λ q. absurd (omega arith))) ∙ at) m due full
          (d ∙ ap count_drop same_drops)

    Covers-earlier : Covers idx (idx + suc n) s t
    Covers-earlier =
        let begun = c.begun in
        record {
          reached = c.reached;
          begun = omega arith;
          before = λ i lt. c.before i (omega arith) ∙ apart i (λ q. absurd (omega arith));
          fates = λ i f le lt at. elim (below_or_at i idx le) [
            | inl same ↦ (
              v,
              ap (get_elem? t.stats) same ∙ (c.before idx (omega arith) ∙ here),
              subst (λ x. Fate now ret e x v) (same_entry s i idx f g eg at same) fate,
            )
            | inr more ↦ c.fates i f more lt (apart i (λ q. absurd (omega arith)) ∙ at)
          ];
          rest = λ i le. c.rest i le ∙ apart i (λ q. absurd (omega arith));
          stops = EndsAt-earlier c.stops;
        }

  module _ (n idx : ℕ) (s u t : LoopState rings) (g v : FsLatencyStats)
      (eg : get_elem? s.stats idx ≡ some g) (stats : u.stats ≡ set s.stats idx v)
      (fate : Fate now ret e g v) where
    written : get_elem? u.stats idx ≡ some v
    written = rw stats (get_elem?-set_self s.stats idx v (lt_of_get_elem? s.stats idx g eg))

    unwritten : (i : ℕ) → i ≢ idx → get_elem? u.stats i ≡ get_elem? s.stats i
    unwritten i ne = rw stats (get_elem?-set_ne s.stats idx i v (λ q. ne (sym q)))

    Covers-written :
        u.drops ≡ s.drops → Covers (idx + 1) (idx + 1 + n) u t → Covers idx (idx + suc n) s t
    Covers-written same_drops c =
        Covers-earlier n idx s u t g v eg written fate unwritten same_drops c

    -- The visits end with this prefix, whose message is dropped.
    Covers-dropped :
        Matches g e
        → IsDue now g
        → rings.reserve u.ring ≡ none
        → u.drops ≡ count_drop s.drops
        → Covers idx (idx + suc n) s u
    Covers-dropped m due full lost = record {
      reached = idx + 1;
      begun = omega arith;
      before = λ i lt. unwritten i (λ q. absurd (omega arith));
      fates = λ i f le lt at.
          let same : i ≡ idx = omega arith in
          (
            v,
            ap (get_elem? u.stats) same ∙ written,
            subst (λ x. Fate now ret e x v) (same_entry s i idx f g eg at same) fate,
          );
      rest = λ i le. unwritten i (λ q. absurd (omega arith));
      stops = at_drop idx g (omega arith) refl eg m due full lost;
    }

  pub Visits-Covers :
      (n idx : ℕ) (s t : LoopState rings)
      → Visits rings cbor filpop now ret e n idx s t
      → Covers idx (idx + n) s t
  Visits-Covers n idx s t finish = record {
    reached = idx;
    begun = omega arith;
    before = λ i lt. refl;
    fates = λ i f le lt at. absurd (omega arith);
    rest = λ i le. refl;
    stops = at_last (omega arith) refl;
  }
  Visits-Covers n idx s t (missing {n = n'} none') = record {
    reached = idx + suc n';
    begun = omega arith;
    before = λ i lt. refl;
    fates = λ i f le lt at. absurd (get_elem?-none s.stats idx i f none' le at);
    rest = λ i le. refl;
    stops = at_last (omega arith) refl;
  }
  Visits-Covers n idx s t (skip {n = n'} {f = g} eg m v) =
      Covers-earlier n' idx s s t g g eg eg (other m) (λ i ne. refl) refl
        (Visits-Covers n' (idx + 1) s t v)
  Visits-Covers n idx s t (sample {n = n'} {f = g} eg m d v) =
      Covers-written n' idx s _ t g _ eg refl (counted m d) refl (Visits-Covers n' (idx + 1) _ t v)
  Visits-Covers n idx s t (lose {n = n'} {f = g} eg m d r) =
      Covers-dropped n' idx s t t g _ eg refl (renewed m d) m d r refl
  Visits-Covers n idx s t (send {n = n'} {f = g} eg m d sent v) =
      Covers-written n' idx s _ t g _ eg refl (renewed m d) refl (Visits-Covers n' (idx + 1) _ t v)
