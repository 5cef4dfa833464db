-- ===== src/Fslat/Lock/Visiting.antt =====
-- A round of the loop of `try_fslat_exit` of lib.rs, which runs alone, is a section.
use ebpf_ldms.Prelude.{
  ℕ, ◌≤◌, ◌≡◌, refl, sym, subst, ◌∙◌, inl, inr, List, [], ◌∷◌, Bool, true, some, none, get_elem?,
  set, length, add64, sub64, codes, IsU64, Bool-cases,
}
use ebpf_ldms.Bpf.Helpers.{Helpers}
use ebpf_ldms.Bpf.RingBuf.{RingBuf}
use ebpf_ldms.Bpf.Encoder.{Encoder}
use ebpf_ldms.Fslat.Maps.{FsLatencyStats, StatsSnapshot, EntryRec}
use ebpf_ldms.Fslat.Stats.{update_stats_locked, clear_stats_locked, take_snapshot}
use ebpf_ldms.Fslat.Prefix.{starts_with}
use ebpf_ldms.Fslat.Message.Put.{message_item, Sent}
use ebpf_ldms.Fslat.Exit.{LoopState, event_at, count_drop, visit}
use ebpf_ldms.Fslat.Exit.Spec.{sampled, unlocked}
use ebpf_ldms.Fslat.Exit.WellFormed.{IsStats}
use ebpf_ldms.Fslat.Exit.Visits.{Ends, publish_lem, visit_sample, visit-publish}
use ebpf_ldms.Fslat.Lock.{Sample, is_due}
use ebpf_ldms.Fslat.Lock.Serial.{finish_section}

module _ (rings : RingBuf 1024) (helpers : Helpers) (cbor : Encoder) (filpop : List ℕ) (now ret : ℕ)
    (e : EntryRec) where
  -- The call that ends.
  abbrev pub sample_of : Sample
  sample_of = record { now = now; latency = sub64 now e.timestamp; bytes = ret }

  -- Its section at some statistics, which run alone.
  abbrev pub section_at : Bool → FsLatencyStats → FsLatencyStats × List StatsSnapshot
  section_at due f = finish_section (due, sample_of) (f, [])

  -- The windows of the section become messages in the ring, unless it has no room.
  pub data Handed (s t : LoopState rings) : List StatsSnapshot → Type 0 where
    nothing : t.ring ≡ s.ring → Handed s t []
    dropped :
        {w : StatsSnapshot} → rings.reserve s.ring ≡ none → t.ring ≡ s.ring → Handed s t (w ∷ [])
    sent :
        {w : StatsSnapshot}
        → Sent cbor rings s.ring t.ring (message_item (event_at now s.seq) w filpop (codes "ns"))
        → Handed s t (w ∷ [])

  -- What a round does to the statistics that it visits.
  pub record Carries (due : Bool) (idx : ℕ) (s t : LoopState rings) (f : FsLatencyStats)
      : Type 0 where
    pub stats : t.stats ≡ set s.stats idx (unlocked (section_at due f).0)
    pub windows : Handed s t (section_at due f).1

  -- On well-formed statistics with a prefix that the path begins with, with a name of at most 500
  -- bytes and u64 numbers: a round of the loop goes on or breaks, and does to them what a section
  -- does that runs alone, with the lock released; the window of the section, if it was due, becomes a
  -- message behind those in the ring, or the ring has no room.
  pub visit-Carries :
      (idx : ℕ) (s : LoopState rings) (f : FsLatencyStats)
      → length filpop ≤ 500
      → IsU64 now
      → IsU64 s.seq
      → IsStats f
      → get_elem? s.stats idx ≡ some f
      → starts_with f.path_prefix e.path f.pathlen ≡ some true
      → (t : LoopState rings) × Ends rings helpers cbor filpop now ret e
          (visit rings helpers cbor filpop now e ret idx s)
          t
        × Carries (is_due now f) idx s t f
  unfolding finish_section take_snapshot update_stats_locked
  visit-Carries idx s f short un us w at m = elim (Bool-cases (is_due now f)) [
    | inr young ↦
        let t = record s { stats = set s.stats idx (unlocked (sampled now ret e f)) } in
        (
          t,
          inl (visit_sample rings helpers cbor filpop now ret e idx s f at m young),
          subst (λ b. Carries b idx s t f) (sym young)
              (record { stats = refl; windows = nothing refl }),
        )
    | inl due ↦
        let publishes = visit-publish rings helpers cbor filpop now ret e idx s f at m due in
        let stats = set s.stats idx (unlocked (clear_stats_locked (sampled now ret e f) now)) in
        elim (publish_lem rings helpers cbor filpop now ret e idx s f short un us w) [
          | inl (full, r) ↦
              let t = record s { stats = stats; drops = count_drop s.drops } in
              (
                t,
                inr (publishes ∙ r),
                subst (λ b. Carries b idx s t f) (sym due)
                    (record { stats = refl; windows = dropped full refl }),
              )
          | inr (ring, message, r) ↦
              let t = record s { seq = add64 s.seq 1; stats = stats; ring = ring } in
              (
                t,
                inl (publishes ∙ r),
                subst (λ b. Carries b idx s t f) (sym due)
                    (record { stats = refl; windows = sent message }),
              )
        ]
  ]
