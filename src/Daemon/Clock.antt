-- ===== src/Daemon/Clock.antt =====
-- The wall clock time of a message: `current_mono_realtime_offset` of
-- daemon/ebpf_ldms/src/main.rs, and the time that `ring_loop` makes of it there. A time is a number
-- of nanoseconds.
use ebpf_ldms.Prelude.{
  ℕ, ◌+◌, ◌-◌, ◌*◌, ◌/◌, ◌%◌, ◌^◌, ◌<◌, ◌≡◌, refl, ◌⊎◌, inl, inr, arith, Option, some, none, leb,
  if◌then◌else◌, Bool-cases,
}

abbrev pub nanos_per_sec : ℕ
nanos_per_sec = 1000 * 1000 * 1000

-- The time at which the monotonic clock was at zero, which may lie before the epoch.
pub data TimeOffset : Type 0 where
  after_epoch before_epoch : ℕ → TimeOffset

-- `now_real - now_mono`, of a time after the epoch: a time has 64 bits with a sign for its seconds,
-- and the subtraction panics, `none`, where they do not hold the difference.
unfoldable pub sub_duration : ℕ → ℕ → Option TimeOffset
sub_duration now_real now_mono =
    if leb now_mono now_real
    then some (after_epoch (now_real - now_mono))
    else if leb (now_mono - now_real) (2 ^ 63 * nanos_per_sec)
    then some (before_epoch (now_mono - now_real))
    else none

-- The readings of the monotonic clock, whose error is unwrapped, and of the wall clock. `none` is a
-- panic; the second unwrap never panics, since the difference is not later than the wall clock.
unfoldable pub current_mono_realtime_offset : Option ℕ → ℕ → Option TimeOffset
unfolding sub_duration
current_mono_realtime_offset none now_real = none
current_mono_realtime_offset (some now_mono) now_real = sub_duration now_real now_mono

-- `(time_offset + nanos).duration_since(UNIX_EPOCH)`, or none before the epoch.
unfoldable pub duration_since_epoch : TimeOffset → ℕ → Option ℕ
duration_since_epoch (after_epoch d) nanos = some (d + nanos)
duration_since_epoch (before_epoch d) nanos = if leb d nanos then some (nanos - d) else none

-- The seconds and the nanoseconds of which the loop makes a float.
unfoldable pub unix_time : TimeOffset → ℕ → Option (ℕ × ℕ)
unfolding duration_since_epoch
unix_time t nanos = elim (duration_since_epoch t nanos) [
  | none ↦ none
  | some d ↦ some (d / nanos_per_sec, d % nanos_per_sec)
]

-- The clocks give no offset: the monotonic one fails, or is too far ahead of the wall clock.
abbrev pub IsUnclocked : Option ℕ → ℕ → Type 0
IsUnclocked mono now_real =
    (mono ≡ none)
    ⊎ ((now_mono : ℕ) × (mono ≡ some now_mono) × (now_real + 2 ^ 63 * 1000000000 < now_mono))

pub current_mono_realtime_offset-none :
    (mono : Option ℕ) (now_real : ℕ)
    → current_mono_realtime_offset mono now_real ≡ none
    → IsUnclocked mono now_real
unfolding current_mono_realtime_offset
current_mono_realtime_offset-none none now_real e = inl refl
current_mono_realtime_offset-none (some now_mono) now_real e = inr (now_mono, refl, ground arith)

-- The wall clock time of a reading of the monotonic clock, by readings of both clocks at one moment.
pub data Dates (now_mono now_real nanos : ℕ) : Option (ℕ × ℕ) → Type 0 where
  undated : now_real + nanos < now_mono → Dates now_mono now_real nanos none
  dated :
      (secs subsec : ℕ)
      → subsec < 1000000000
      → secs * 1000000000 + subsec + now_mono ≡ now_real + nanos
      → Dates now_mono now_real nanos (some (secs, subsec))

duration_since_epoch_lem :
    (now_mono now_real nanos : ℕ) (t : TimeOffset)
    → sub_duration now_real now_mono ≡ some t
    → ((now_real + nanos < now_mono) × (duration_since_epoch t nanos ≡ none))
      ⊎ ((d : ℕ) × (d + now_mono ≡ now_real + nanos) × (duration_since_epoch t nanos ≡ some d))
unfolding sub_duration duration_since_epoch
duration_since_epoch_lem now_mono now_real nanos (after_epoch d) e =
    inr (d + nanos, ground arith, refl)
duration_since_epoch_lem now_mono now_real nanos (before_epoch d) e =
    elim (Bool-cases (leb d nanos)) [
      | inl later ↦ inr (nanos - d, ground arith, rw later)
      | inr earlier ↦ inl (ground arith, rw earlier)
    ]

-- By the offset of two readings of the clocks, a reading of the monotonic clock, earlier or later
-- than those, becomes the wall clock time that is as far from that of the offset: whole seconds, and
-- nanoseconds below a second. It has no time exactly where that lies before the epoch.
pub unix_time-Dates :
    (now_mono now_real nanos : ℕ) (t : TimeOffset)
    → current_mono_realtime_offset (some now_mono) now_real ≡ some t
    → Dates now_mono now_real nanos (unix_time t nanos)
unfolding unix_time current_mono_realtime_offset
unix_time-Dates now_mono now_real nanos t e =
    elim (duration_since_epoch_lem now_mono now_real nanos t e) [
      | inl (early, e') ↦ rw (unix_time, e') (undated early)
      | inr (d, same, e') ↦
          rw (unix_time, e') (dated (d / 1000000000) (d % 1000000000) (omega arith) (omega arith))
    ]
