-- ===== src/Fslat/Lock/Finishing.antt =====
-- A CPU that has taken the spin lock of lib.rs gets through its section, and what two CPUs that find
-- one window due do to it.
use ebpf_ldms.Prelude.{
  ℕ, ◌≡◌, ◌≢◌, refl, ◌∙◌, List, [], ◌∷◌, Bool, true, false, set_at_self, set_at_ne,
}
use ebpf_ldms.Fslat.Maps.{FsLatencyStats, StatsSnapshot}
use ebpf_ldms.Fslat.Lock.{
  Sample, Statement, execute, section_of, Place, away, tested, inside, Sharing, at_work, locks,
  executes, unlocks, Moves, none_yet, one_more, calm,
}
use ebpf_ldms.Fslat.Lock.Serial.{IsInside, Moves-IsSerial}

module _ (from : Sharing) (cpu : ℕ) where
  -- A later state, in which the other CPUs are where they were.
  pub record Reaches (ended : List (Bool × Sample)) (s t : Sharing) : Type 0 where
    pub moves : Moves from ended t
    pub others : (d : ℕ) → d ≢ cpu → t.places d ≡ s.places d

  module _ (due : Bool) (x : Sample) (ended : List (Bool × Sample)) where
    -- The CPU is behind the last statement of its section.
    IsLast : Sharing → Type 0
    IsLast t =
        (loaded : ℕ) × (snapshot : StatsSnapshot) × (t.places cpu ≡ inside due x [] loaded snapshot)

    execute_rest :
        (rest : List Statement) (loaded : ℕ) (snapshot : StatsSnapshot) (s : Sharing)
        → Moves from ended s
        → s.places cpu ≡ inside due x rest loaded snapshot
        → (t : Sharing) × Reaches ended s t × IsLast t
    unfolding IsLast
    execute_rest [] loaded snapshot s moves at =
        (s, record { moves = moves; others = λ d ne. refl }, (loaded, snapshot, at))
    execute_rest (statement ∷ rest) loaded snapshot s moves at =
        let w = execute x statement (at_work s.stats loaded snapshot) in
        let (t, there, last) =
          execute_rest rest w.loaded w.snapshot _ (one_more {cpu = cpu} moves (executes at))
            (set_at_self s.places cpu _) in
        (
          t,
          record {
            moves = there.moves;
            others = λ d ne. there.others d ne ∙ set_at_ne s.places cpu d _ ne;
          },
          last,
        )

    finish_rest :
        (rest : List Statement) (loaded : ℕ) (snapshot : StatsSnapshot) (s : Sharing)
        → Moves from ended s
        → s.places cpu ≡ inside due x rest loaded snapshot
        → (t : Sharing) × Reaches ((due, x) ∷ ended) s t × (t.stats.lock ≡ false)
    unfolding IsLast
    finish_rest rest loaded snapshot s moves at =
        let (t, there, (loaded', snapshot', last)) = execute_rest rest loaded snapshot s moves at in
        (
          _,
          record {
            moves = one_more {cpu = cpu} there.moves (unlocks last);
            others = λ d ne. set_at_ne t.places cpu d away ne ∙ there.others d ne;
          },
          refl,
        )

  -- A CPU behind the test of the window, with a free lock, gets through its section.
  pub finish_tested :
      (due : Bool) (x : Sample) (ended : List (Bool × Sample)) (snapshot : StatsSnapshot)
      (s : Sharing)
      → Moves from ended s
      → s.places cpu ≡ tested due x
      → s.stats.lock ≡ false
      → (t : Sharing) × Reaches ((due, x) ∷ ended) s t × (t.stats.lock ≡ false)
  finish_tested due x ended snapshot s moves at low =
      let (t, there, free) =
        finish_rest due x ended (section_of due) 0 snapshot _
          (one_more {cpu = cpu} moves (locks 0 snapshot at low)) (set_at_self s.places cpu _) in
      (
        t,
        record {
          moves = there.moves;
          others = λ d ne. there.others d ne ∙ set_at_ne s.places cpu d _ ne;
        },
        free,
      )

-- Where a CPU is that is under the lock.
inside_lem :
    (p : Place)
    → IsInside p
    → (due : Bool) × (x : Sample) × (rest : List Statement) × (loaded : ℕ)
      × (snapshot : StatsSnapshot) × (p ≡ inside due x rest loaded snapshot)
inside_lem away is = elim is [ ]
inside_lem (tested due x) is = elim is [ ]
inside_lem (inside due x rest loaded snapshot) is = (due, x, rest, loaded, snapshot, refl)

-- The lock is never held for ever: whatever the CPUs have done at statistics whose lock is free at
-- first, if it is held, the CPU under it gets through its section by steps of its own, which free
-- the lock and leave the other CPUs where they are.
pub Moves-Unlocks :
    (start : FsLatencyStats) (ended : List (Bool × Sample)) (s : Sharing)
    → start.lock ≡ false
    → Moves (calm start) ended s
    → s.stats.lock ≡ true
    → (cpu : ℕ) × (due : Bool) × (x : Sample) × (t : Sharing) × Moves s ((due, x) ∷ []) t
      × (t.stats.lock ≡ false)
      × ((d : ℕ) → d ≢ cpu → t.places d ≡ s.places d)
Moves-Unlocks start ended s unheld moves held =
    let w = Moves-IsSerial start unheld ended s moves in
    let (cpu, is) = w.holder held in
    let (due, x, rest, loaded, snapshot, at) = inside_lem (s.places cpu) is in
    let (t, there, free) = finish_rest s cpu due x [] rest loaded snapshot s none_yet at in
    (cpu, due, x, t, there.moves, free, there.others)
