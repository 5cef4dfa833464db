-- ===== src/Fslat/Exit/Visits.antt =====
-- The loop of `try_fslat_exit` of lib.rs carries out the specified visits, and neither panics nor
-- runs into undefined behaviour.
use ebpf_ldms.Prelude.{
  ℕ, zero, suc, ◌+◌, ◌≤◌, ◌≡◌, refl, arith, ◌∙◌, ◌⊎◌, inl, inr, List, true, false, some, none,
  get_elem?, set, ltb, ltb→lt, length, add64, sub64, codes, IsU64, Bool-cases, Option-cases,
}
use ebpf_ldms.Bpf.Helpers.{Helpers}
use ebpf_ldms.Bpf.RingBuf.{RingBuf}
use ebpf_ldms.Bpf.Encoder.{Encoder}
use ebpf_ldms.Fslat.Maps.{FsLatencyStats, EntryRec, agg_interval, IsPathSlice}
use ebpf_ldms.Fslat.Stats.{update_stats_locked, clear_stats_locked, take_snapshot}
use ebpf_ldms.Fslat.Prefix.{starts_with, starts_with-Decides}
use ebpf_ldms.Fslat.Message.Put.{message_item, Sent, ringbuf_put-message}
use ebpf_ldms.Fslat.Exit.{
  LoopState, Round, next, stop, event_at, count_drop, under_lock, publish, visit, visit_from,
}
use ebpf_ldms.Fslat.Exit.Spec.{
  Matches, IsDue, sampled, unlocked, Visits, finish, missing, skip, sample, lose, send,
}
use ebpf_ldms.Fslat.Exit.WellFormed.{
  unlocked-IsStats, IsStats, AllStats, set-AllStats, update-IsStats, clear-IsStats, message-IsItem,
}

module _ (rings : RingBuf 1024) (helpers : Helpers) (cbor : Encoder) (filpop : List ℕ) (now ret : ℕ)
    (e : EntryRec) where
  module _ (idx : ℕ) (s : LoopState rings) (f : FsLatencyStats) where
    -- The loop's state after a window was cleared.
    abbrev restarted : List FsLatencyStats
    restarted = set s.stats idx (unlocked (clear_stats_locked (sampled now ret e f) now))

    pub publish_lem :
        length filpop ≤ 500
        → IsU64 now
        → IsU64 s.seq
        → IsStats f
        → let r = publish rings helpers cbor filpop now (sub64 now e.timestamp) ret idx f s in
          let message =
            message_item
              (event_at now s.seq)
              (take_snapshot (sampled now ret e f))
              filpop
              (codes "ns") in
          ((rings.reserve s.ring ≡ none)
            × (r ≡ stop (record s { stats = restarted; drops = count_drop s.drops })))
          ⊎ ((ring : rings.Ring) × Sent cbor rings s.ring ring message
              × (r ≡ next (record s { seq = add64 s.seq 1; stats = restarted; ring = ring })))
    unfolding publish take_snapshot update_stats_locked clear_stats_locked
    publish_lem short un us w =
        let event = event_at now s.seq in
        let snapshot = take_snapshot (sampled now ret e f) in
        elim (ringbuf_put-message cbor rings s.ring event snapshot filpop (codes "ns") (omega arith)
          (message-IsItem (sampled now ret e f) now s.seq filpop
            (update-IsStats f _ ret (omega arith) w) un us short)) [
              | inl (full, r) ↦ inl (full, rw (publish, r, helpers.spin_unlock_lem))
              | inr (m, room, ring, r, sent) ↦
                  inr (ring, sent, rw (publish, r, helpers.spin_unlock_lem))
            ]

  module _ (idx : ℕ) (s : LoopState rings) (f : FsLatencyStats)
      (at : get_elem? s.stats idx ≡ some f) where
    visit_skip :
        starts_with f.path_prefix e.path f.pathlen ≡ some false
        → visit rings helpers cbor filpop now e ret idx s ≡ next s
    unfolding visit
    visit_skip m = rw (at, m, visit)

    pub visit_sample :
        starts_with f.path_prefix e.path f.pathlen ≡ some true
        → ltb agg_interval (sub64 now f.lastpublish) ≡ false
        → visit rings helpers cbor filpop now e ret idx s
          ≡ next (record s { stats = set s.stats idx (unlocked (sampled now ret e f)) })
    unfolding visit update_stats_locked under_lock
    visit_sample m young = rw (visit, at, m, young, helpers.spin_unlock_lem)

    pub visit-publish :
        starts_with f.path_prefix e.path f.pathlen ≡ some true
        → ltb agg_interval (sub64 now f.lastpublish) ≡ true
        → visit rings helpers cbor filpop now e ret idx s
          ≡ publish rings helpers cbor filpop now (sub64 now e.timestamp) ret idx f s
    unfolding visit
    visit-publish m due = rw (visit, at, m, due)

  module _ (n idx : ℕ) (s t : LoopState rings) where
    visit_from_next :
        visit rings helpers cbor filpop now e ret idx s ≡ next t
        → visit_from rings helpers cbor filpop now e ret (suc n) idx s
          ≡ visit_from rings helpers cbor filpop now e ret n (idx + 1) t
    unfolding visit_from
    visit_from_next h = rw (visit_from, h)

    visit_from_stop :
        visit rings helpers cbor filpop now e ret idx s ≡ stop t
        → visit_from rings helpers cbor filpop now e ret (suc n) idx s ≡ stop t
    unfolding visit_from
    visit_from_stop h = rw (visit_from, h)

  -- A round that is over, in the state given.
  abbrev pub Ends : Round rings → LoopState rings → Type 0
  Ends r t = (r ≡ next t) ⊎ (r ≡ stop t)

  -- The loop ends by what the visits specify, and the statistics stay well-formed.
  abbrev pub Visited : ℕ → ℕ → LoopState rings → Type 0
  Visited n idx s =
      (t : LoopState rings) × Ends (visit_from rings helpers cbor filpop now e ret n idx s) t
      × Visits rings cbor filpop now ret e n idx s t
      × AllStats t.stats
      × IsU64 t.seq

  Visited-next :
      (n idx : ℕ) (s u : LoopState rings)
      → visit rings helpers cbor filpop now e ret idx s ≡ next u
      → ((t : LoopState rings)
          → Visits rings cbor filpop now ret e n (idx + 1) u t
          → Visits rings cbor filpop now ret e (suc n) idx s t)
      → Visited n (idx + 1) u
      → Visited (suc n) idx s
  Visited-next n idx s u h step (t, ends, visits, all, us) =
      (t, rw (visit_from_next n idx s u h) ends, step t visits, all, us)

  module _ (short : length filpop ≤ 500) (un : IsU64 now) (ur : IsU64 ret)
      (size : IsPathSlice e.path) where
    Visited-due :
        (n idx : ℕ) (s : LoopState rings) (f : FsLatencyStats)
        → get_elem? s.stats idx ≡ some f
        → AllStats s.stats
        → IsU64 s.seq
        → Matches f e
        → starts_with f.path_prefix e.path f.pathlen ≡ some true
        → ltb agg_interval (sub64 now f.lastpublish) ≡ true
        → ((u : LoopState rings) → AllStats u.stats → IsU64 u.seq → Visited n (idx + 1) u)
        → Visited (suc n) idx s
    Visited-due n idx s f at all us match m due go =
        let w = all idx f at in
        let publishes = visit-publish idx s f at m due in
        let is_due : IsDue now f = ltb→lt _ _ due in
        let w' = update-IsStats f (sub64 now e.timestamp) ret (omega arith) w in
        let all' = set-AllStats s.stats idx _ all (unlocked-IsStats _ (clear-IsStats _ now w')) in
        elim (publish_lem idx s f short un us w) [
          | inl (full, r) ↦ (
            _,
            inr (visit_from_stop n idx s _ (publishes ∙ r)),
            lose at match is_due full,
            all',
            us,
          )
          | inr (ring, sent, r) ↦
              Visited-next n idx s _ (publishes ∙ r) (λ t. send at match is_due sent)
                (go _ all' (omega arith))
        ]

    pub visit_from-Visited :
        (n idx : ℕ) (s : LoopState rings) → AllStats s.stats → IsU64 s.seq → Visited n idx s
    unfolding visit_from
    visit_from-Visited zero idx s all us = (s, inl refl, finish, all, us)
    visit_from-Visited (suc n) idx s all us = elim (Option-cases (get_elem? s.stats idx)) [
      | inl at ↦ (s, inr (rw (visit_from, visit, at)), missing at, all, us)
      | inr (f, at) ↦
          let w = all idx f at in
          let go = visit_from-Visited n (idx + 1) in
          let (b, m, iff) = starts_with-Decides f.path_prefix e.path f.pathlen w.path_prefix size in
          elim (Bool-cases b) [
            | inl holds ↦
                let m' : starts_with f.path_prefix e.path f.pathlen ≡ some true = rw holds at m in
                elim (Bool-cases (ltb agg_interval (sub64 now f.lastpublish))) [
                  | inl due ↦ Visited-due n idx s f at all us (iff.0 holds) m' due go
                  | inr young ↦
                      let early : ¬ IsDue now f = λ d. absurd (ground arith) in
                      let all' =
                        set-AllStats s.stats idx _ all
                          (unlocked-IsStats _ (update-IsStats f _ ret (omega arith) w)) in
                      Visited-next n idx s _ (visit_sample idx s f at m' young)
                        (λ t. sample at (iff.0 holds) early) (go _ all' us)
                ]
            | inr fails ↦
                let m' : starts_with f.path_prefix e.path f.pathlen ≡ some false = rw fails at m in
                Visited-next n idx s s (visit_skip idx s f at m')
                  (λ t. skip at (λ y. absurd (ground (arith, iff.1 y)))) (go s all us)
          ]
    ]
