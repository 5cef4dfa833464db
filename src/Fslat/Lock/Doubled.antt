-- ===== src/Fslat/Lock/Doubled.antt =====
-- Two CPUs that find one window of lib.rs due, which they test before they take the spin lock.
use ebpf_ldms.Prelude.{
  ℕ, ◌+◌, ◌<◌, ◌^◌, ◌≡◌, ◌≢◌, refl, sym, ◌∙◌, ap, arith, [], ◌∷◌, true, false, ◌⊎◌, inl, inr,
  set_at, set_at_self, set_at_ne, lt→ltb, sub64,
}
use ebpf_ldms.Fslat.Maps.{FsLatencyStats, StatsSnapshot, agg_interval}
use ebpf_ldms.Fslat.Stats.{update_stats_locked, clear_stats_locked, take_snapshot}
use ebpf_ldms.Fslat.Lock.{
  Sample, away, tested, Sharing, is_due, tests, Moves, none_yet, one_more, calm,
}
use ebpf_ldms.Fslat.Lock.Serial.{finish_section, finish_all, Moves-IsSerial}
use ebpf_ldms.Fslat.Lock.Finishing.{finish_tested}

-- A reading of the clock that is older than the start of the window: the difference wraps.
is_due-late :
    (now : ℕ) (f : FsLatencyStats)
    → now < f.lastpublish
    → f.lastpublish < now + 2 ^ 63
    → is_due now f ≡ true
is_due-late now f older near = lt→ltb agg_interval (sub64 now f.lastpublish) (omega arith)

module _ (start : FsLatencyStats) (x y : Sample) where
  -- The statistics with both samples, one in each of two windows.
  abbrev pub first_window : StatsSnapshot
  first_window = take_snapshot (update_stats_locked start x.latency x.bytes)

  abbrev pub second_window : StatsSnapshot
  second_window = take_snapshot (
      update_stats_locked (clear_stats_locked (update_stats_locked start x.latency x.bytes) x.now)
        y.latency y.bytes)

  two_windows :
      (finish_all start ((true, y) ∷ (true, x) ∷ [])).1 ≡ first_window ∷ second_window ∷ []
  unfolding finish_all finish_section
  two_windows = refl

  second_window_count : second_window.count ≡ 1
  unfolding update_stats_locked clear_stats_locked take_snapshot
  second_window_count = refl

  renewed : (finish_all start ((true, x) ∷ [])).0.lastpublish ≡ x.now
  unfolding finish_all finish_section update_stats_locked clear_stats_locked
  renewed = refl

  -- The window is due for the second CPU as well as for the first one, or it has read the clock
  -- before the first one did, less than 2 ^ 63 nanoseconds.
  abbrev pub AlsoDue : Type 0
  AlsoDue = (is_due y.now start ≡ true) ⊎ ((y.now < x.now) × (x.now < y.now + 2 ^ 63))

  module _ (unheld : start.lock ≡ false) (x_due : is_due x.now start ≡ true) (cpu other : ℕ)
      (apart : cpu ≢ other) where
    -- Both windows have been handed on.
    abbrev Doubles : Type 0
    Doubles =
        (t : Sharing) × Moves (calm start) ((true, y) ∷ (true, x) ∷ []) t × (t.stats.lock ≡ false)

    -- Both CPUs test the window before one of them takes the lock.
    both_test : is_due y.now start ≡ true → Doubles
    both_test y_due =
        let p1 = set_at (λ c. away) cpu (tested (is_due x.now start) x) in
        let tested_both =
          one_more {cpu = other} (one_more {cpu = cpu} none_yet (tests x refl))
            (tests y (set_at_ne (λ c. away) cpu other _ (λ e. apart (sym e)))) in
        let (t, there, free) =
          finish_tested (calm start) cpu true x [] first_window _ tested_both
            (set_at_ne p1 other cpu _ apart
              ∙ (set_at_self (λ c. away) cpu _ ∙ ap (λ b. tested b x) x_due))
            unheld in
        let (u, then, free') =
          finish_tested (calm start) other true y _ first_window t there.moves
            (there.others other (λ e. apart (sym e))
              ∙ (set_at_self p1 other _ ∙ ap (λ b. tested b y) y_due))
            free in
        (u, then.moves, free')

    -- The second CPU tests the window that the first one has begun.
    test_late : y.now < x.now → x.now < y.now + 2 ^ 63 → Doubles
    test_late older near =
        let (t, there, free) =
          finish_tested (calm start) cpu true x [] first_window _
            (one_more {cpu = cpu} none_yet (tests x refl))
            (set_at_self (λ c. away) cpu _ ∙ ap (λ b. tested b x) x_due) unheld in
        let w = Moves-IsSerial start unheld ((true, x) ∷ []) t there.moves in
        let begun : t.stats.lastpublish ≡ x.now = ap (λ f. f.lastpublish) (w.free free) ∙ renewed in
        let late = is_due-late y.now t.stats (omega (arith, begun)) (omega (arith, begun)) in
        let (u, then, free') =
          finish_tested (calm start) other true y _ first_window _
            (one_more {cpu = other} there.moves (
              tests y (
                there.others other (λ e. apart (sym e))
                ∙ set_at_ne (λ c. away) cpu other _ (λ e. apart (sym e)))))
            (set_at_self t.places other _ ∙ ap (λ b. tested b y) late) free in
        (u, then.moves, free')

    both_windows : AlsoDue → Doubles
    both_windows (inl y_due) = both_test y_due
    both_windows (inr (older, near)) = test_late older near

-- One window may be published twice: from all statistics that are due for a CPU there is an
-- interleaving with another CPU, for which they are due too or which has read the clock before, that
-- hands on two windows, the second with the one sample of the other CPU, and frees the lock.
pub Moves-twice :
    (start : FsLatencyStats) (x y : Sample) (cpu other : ℕ)
    → start.lock ≡ false
    → is_due x.now start ≡ true
    → AlsoDue start x y
    → cpu ≢ other
    → (t : Sharing) × Moves (calm start) ((true, y) ∷ (true, x) ∷ []) t
      × (t.stats.lock ≡ false)
      × (t.sent ≡ first_window start x y ∷ second_window start x y ∷ [])
      × ((second_window start x y).count ≡ 1)
Moves-twice start x y cpu other unheld x_due also apart =
    let (t, moves, free) = both_windows start x y unheld x_due cpu other apart also in
    let w = Moves-IsSerial start unheld ((true, y) ∷ (true, x) ∷ []) t moves in
    (t, moves, free, w.sent ∙ two_windows start x y, second_window_count start x y)
