-- ===== src/Fslat/Tests/LockRuns.antt =====
-- Two CPUs at the statistics of one prefix of lib.rs.
use ebpf_ldms.Prelude.{
  some, ℕ, ◌≡◌, ◌≢◌, refl, arith, List, [], ◌∷◌, Bool, true, false, set_at, inr, codes, ◌++◌,
  replicate,
}
use ebpf_ldms.Fslat.Maps.{FsLatencyStats}
use ebpf_ldms.Bpf.Helpers.{documented}
use ebpf_ldms.Bpf.Encoder.{plain}
use ebpf_ldms.Fslat.Prefix.{starts_with, compare_from}
use ebpf_ldms.Fslat.Exit.{LoopState, visit}
use ebpf_ldms.Fslat.Exit.Visits.{Ends}
use ebpf_ldms.Fslat.Tests.StatsRuns.{loaded}
use ebpf_ldms.Fslat.Tests.CallRuns.{ring, prefixes, prefixes-AllStats, entry}
use ebpf_ldms.Fslat.Lock.Visiting.{Carries, visit-Carries}
use ebpf_ldms.Fslat.Lock.{
  is_due, Sample, Place, tested, inside, Sharing, section_of, away, tests, locks, Moves, none_yet,
  one_more, calm,
}
use ebpf_ldms.Fslat.Lock.Serial.{IsSerial, Moves-IsSerial}
use ebpf_ldms.Fslat.Lock.Conserved.{Conserves, Moves-Conserves}
use ebpf_ldms.Fslat.Lock.Finishing.{Moves-Unlocks}
use ebpf_ldms.Fslat.Lock.Doubled.{first_window, second_window, Moves-twice}

-- The window of /usr began at one second.
abbrev usr : FsLatencyStats
usr = record {
  lock = false;
  pathlen = 4;
  path_prefix = codes "/usr" ++ replicate 28 0;
  min = 10;
  max = 30;
  total_lat = 60;
  total_bytes = 4608;
  count = 3;
  lastpublish = 1000000000;
}

-- Two reads that end. The second one has read the clock a microsecond before the first one.
abbrev read_end : Sample
read_end = record { now = 2500001000; latency = 20; bytes = 512 }

abbrev early_end : Sample
early_end = record { now = 2500000000; latency = 7; bytes = 100 }

abbrev two_ends : List (Bool × Sample)
two_ends = (true, early_end) ∷ (true, read_end) ∷ []

Moves-twice_example :
    (t : Sharing) × Moves (calm usr) two_ends t
    × (t.stats.lock ≡ false)
    × (t.sent ≡ first_window usr read_end early_end ∷ second_window usr read_end early_end ∷ [])
    × ((second_window usr read_end early_end).count ≡ 1)
Moves-twice_example =
    Moves-twice usr read_end early_end 3 5 refl refl (inr (omega arith, omega arith)) (omega arith)

two_ends_run : (t : Sharing) × Moves (calm usr) two_ends t × (t.stats.lock ≡ false)
two_ends_run =
    let (t, moves, free, windows, one) =
      Moves-twice usr read_end early_end 3 5 refl refl (inr (omega arith, omega arith))
        (omega arith) in
    (t, moves, free)

both_ended : Sharing
both_ended = two_ends_run.0

both_ended-Moves : Moves (calm usr) two_ends both_ended × (both_ended.stats.lock ≡ false)
unfolding both_ended
both_ended-Moves = (two_ends_run.1, two_ends_run.2)

Moves-IsSerial_example : IsSerial usr refl two_ends both_ended
Moves-IsSerial_example = Moves-IsSerial usr refl two_ends both_ended both_ended-Moves.0

Moves-Conserves_example : Conserves usr two_ends both_ended.stats both_ended.sent
Moves-Conserves_example =
    Moves-Conserves usr two_ends both_ended refl both_ended-Moves.0 both_ended-Moves.1

-- CPU 3 has just taken the lock.
abbrev places : ℕ → Place
places = set_at (λ c. away) 3 (tested true read_end)

abbrev held : Sharing
held = record {
  stats = record usr { lock = true };
  places =
      set_at places 3
        (inside true read_end (section_of true) 0 (first_window usr read_end early_end));
  sent = [];
}

held-Moves : Moves (calm usr) [] held
held-Moves =
    one_more {cpu = 3} (one_more {cpu = 3} none_yet (tests read_end refl))
      (locks 0 (first_window usr read_end early_end) refl refl)

Moves-Unlocks_example :
    (cpu : ℕ) × (due : Bool) × (x : Sample) × (t : Sharing) × Moves held ((due, x) ∷ []) t
    × (t.stats.lock ≡ false)
    × ((d : ℕ) → d ≢ cpu → t.places d ≡ held.places d)
Moves-Unlocks_example = Moves-Unlocks usr [] held refl held-Moves refl

-- The end of the read of CallRuns, at the prefix /us.
abbrev us : FsLatencyStats
us = record loaded { pathlen = 3; path_prefix = b'/' ∷ b'u' ∷ b's' ∷ replicate 29 0 }

abbrev arriving : LoopState ring
arriving = record { seq = 41; stats = prefixes; ring = []; drops = 0 ∷ [] }

us-starts_with : starts_with us.path_prefix entry.path us.pathlen ≡ some true
unfolding starts_with compare_from
us-starts_with = refl

visit-Carries_example :
    (t : LoopState ring) × Ends ring documented plain
      (codes "read")
      2000009000
      512
      entry
      (visit ring documented plain (codes "read") 2000009000 entry 512 0 arriving)
      t
    × Carries ring documented plain
        (codes "read")
        2000009000
        512
        entry
        (is_due 2000009000 us)
        0
        arriving
        t
        us
visit-Carries_example =
    visit-Carries ring documented plain (codes "read") 2000009000 512 entry 0 arriving us
      (omega arith) (omega arith) (omega arith) (prefixes-AllStats 0 us refl) refl us-starts_with
