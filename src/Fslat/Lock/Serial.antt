-- ===== src/Fslat/Lock/Serial.antt =====
-- The sections under the spin lock of `try_fslat_exit` of lib.rs come one after another.
use ebpf_ldms.Prelude.{
  ℕ, ◌≡◌, ◌≢◌, refl, sym, ◌∙◌, ap, subst, List, [], ◌∷◌, ◌++◌, Bool, true, false, set_at,
  set_at_self, set_at-cases, set_at-all, inl, inr,
}
use mathlib.Core.Bool.{false≢true}
use ebpf_ldms.Fslat.Maps.{FsLatencyStats, StatsSnapshot}
use ebpf_ldms.Fslat.Stats.{update_stats_locked, clear_stats_locked, take_snapshot}
use ebpf_ldms.Fslat.Lock.{
  Sample, Statement, load_min, Working, execute, section_of, Place, away, tested, inside, Sharing,
  is_due, hand_on, at_work, put_back, Move, tests, locks, executes, unlocks, Moves, none_yet,
  one_more, calm,
}

-- What a section is to do, by the functions of lib.rs as wholes.
unfoldable pub finish_section :
    Bool × Sample → FsLatencyStats × List StatsSnapshot → FsLatencyStats × List StatsSnapshot
finish_section (false, x) (f, sent) = (update_stats_locked f x.latency x.bytes, sent)
finish_section (true, x) (f, sent) =
    let g = update_stats_locked f x.latency x.bytes in
    (clear_stats_locked g x.now, sent ++ (take_snapshot g ∷ []))

-- The sections one after another, the latest first in the list.
unfoldable pub finish_all :
    FsLatencyStats → List (Bool × Sample) → FsLatencyStats × List StatsSnapshot
unfolding finish_section
finish_all f [] = (f, [])
finish_all f (section ∷ sections) = finish_section section (finish_all f sections)

unfoldable execute_all : Sample → List Statement → Working → Working
execute_all x [] w = w
execute_all x (statement ∷ rest) w = execute_all x rest (execute x statement w)

abbrev locked : FsLatencyStats → FsLatencyStats
locked f = record f { lock = true }

-- A section that runs alone, whatever the CPU has of its own at first.
section_of-finish :
    (due : Bool) (x : Sample) (f : FsLatencyStats) (sent : List StatsSnapshot) (loaded : ℕ)
    (snapshot : StatsSnapshot)
    → let w = execute_all x (section_of due) (at_work (locked f) loaded snapshot) in
      let r = finish_section (due, x) (f, sent) in
      (record (w.stats) { lock = f.lock } ≡ r.0) × (hand_on due w.snapshot sent ≡ r.1)
unfolding execute_all execute finish_section update_stats_locked clear_stats_locked take_snapshot
section_of-finish true x f sent loaded snapshot = (refl, refl)
section_of-finish false x f sent loaded snapshot = (refl, refl)

execute-lock :
    (x : Sample) (statement : Statement) (w : Working)
    → (execute x statement w).stats.lock ≡ w.stats.lock
unfolding execute
execute-lock x load_min w = refl
execute-lock x _ w = refl

finish_section-lock :
    (due : Bool) (x : Sample) (r : FsLatencyStats × List StatsSnapshot)
    → (finish_section (due, x) r).0.lock ≡ r.0.lock
unfolding finish_section update_stats_locked clear_stats_locked
finish_section-lock true x r = refl
finish_section-lock false x r = refl

finish_all-lock :
    (f : FsLatencyStats) (sections : List (Bool × Sample)) → (finish_all f sections).0.lock ≡ f.lock
unfolding finish_all
finish_all-lock f [] = refl
finish_all-lock f ((due, x) ∷ sections) =
    finish_section-lock due x (finish_all f sections) ∙ finish_all-lock f sections

abbrev pub IsInside : Place → Type 0
IsInside away = ⊥
IsInside (tested due x) = ⊥
IsInside (inside due x rest loaded snapshot) = Unit {0}

-- Where a CPU is under the lock, the statements that are left lead to the end of its section.
abbrev Fits : FsLatencyStats → FsLatencyStats → Place → Type 0
Fits g f away = Unit {0}
Fits g f (tested due x) = Unit {0}
Fits g f (inside due x rest loaded snapshot) =
    (f.lock ≡ true)
    × (loaded' : ℕ) × (snapshot' : StatsSnapshot) × (execute_all x rest (at_work f loaded snapshot)
        ≡ execute_all x (section_of due) (at_work (locked g) loaded' snapshot'))

Fits-outside : (g f : FsLatencyStats) (p : Place) → ¬ IsInside p → Fits g f p
Fits-outside g f away out = tt
Fits-outside g f (tested due x) out = tt
Fits-outside g f (inside due x rest loaded snapshot) out = absurd (out tt)

Fits-lock : (g f : FsLatencyStats) (p : Place) → Fits g f p → IsInside p → f.lock ≡ true
Fits-lock g f away fits is = elim is [ ]
Fits-lock g f (tested due x) fits is = elim is [ ]
Fits-lock g f (inside due x rest loaded snapshot) fits is = fits.0

module _ (places : ℕ → Place) (cpu : ℕ) (p : Place) where
  inside_before : ¬ IsInside p → (c : ℕ) → IsInside (set_at places cpu p c) → IsInside (places c)
  inside_before out c is = elim (set_at-cases places cpu c p) [
    | inl (same, e) ↦ absurd (out (subst IsInside e is))
    | inr (apart, e) ↦ subst IsInside e is
  ]

  inside_here :
      ((c : ℕ) → c ≢ cpu → ¬ IsInside (places c))
      → (c : ℕ) → IsInside (set_at places cpu p c)
      → c ≡ cpu
  inside_here out c is = elim (set_at-cases places cpu c p) [
    | inl (same, e) ↦ same
    | inr (apart, e) ↦ absurd (out c apart (subst IsInside e is))
  ]

  inside_still :
      ¬ IsInside (places cpu) → (c : ℕ) → IsInside (places c) → IsInside (set_at places cpu p c)
  inside_still out c is = elim (set_at-cases places cpu c p) [
    | inl (same, e) ↦ absurd (out (subst (λ d. IsInside (places d)) same is))
    | inr (apart, e) ↦ subst IsInside (sym e) is
  ]

module _ (start : FsLatencyStats) (unheld : start.lock ≡ false) where
  -- The sections that have ended, one after another.
  abbrev pub done : List (Bool × Sample) → FsLatencyStats × List StatsSnapshot
  done ended = finish_all start ended

  -- At most one CPU is under the lock, which is held exactly then; the windows handed on are those of
  -- the sections that have ended, and so are the statistics where the lock is free.
  pub record IsSerial (ended : List (Bool × Sample)) (t : Sharing) : Type 0 where
    fits : (c : ℕ) → Fits (done ended).0 t.stats (t.places c)
    pub alone : (c d : ℕ) → IsInside (t.places c) → IsInside (t.places d) → c ≡ d
    pub free : t.stats.lock ≡ false → t.stats ≡ (done ended).0
    pub holder : t.stats.lock ≡ true → (c : ℕ) × IsInside (t.places c)
    pub sent : t.sent ≡ (done ended).1

  module _ (ended : List (Bool × Sample)) (cpu : ℕ) (s : Sharing) (w : IsSerial ended s) where
    -- Where no CPU holds the lock, none is inside.
    none_inside : s.stats.lock ≡ false → (c : ℕ) → ¬ IsInside (s.places c)
    none_inside e c is =
        absurd (false≢true (sym e ∙ Fits-lock (done ended).0 s.stats (s.places c) (w.fits c) is))

    outside : {p : Place} → s.places cpu ≡ p → ¬ IsInside p → ¬ IsInside (s.places cpu)
    outside at out is = out (subst IsInside at is)

    tests-IsSerial :
        (x : Sample)
        → s.places cpu ≡ away
        → IsSerial ended
            (record s { places = set_at s.places cpu (tested (is_due x.now s.stats) x) })
    tests-IsSerial x at =
        let before = inside_before s.places cpu (tested (is_due x.now s.stats) x) (λ is. is) in
        record {
          fits = set_at-all (Fits (done ended).0 s.stats) s.places cpu _ (λ c _. w.fits c) tt;
          alone = λ c d ic id. w.alone c d (before c ic) (before d id);
          free = w.free;
          holder = λ held.
              let (c, is) = w.holder held in
              (c, inside_still s.places cpu _ (outside at (λ i. i)) c is);
          sent = w.sent;
        }

    locks-IsSerial :
        (due : Bool) (x : Sample) (loaded : ℕ) (snapshot : StatsSnapshot)
        → s.stats.lock ≡ false
        → IsSerial ended (record s {
          stats = locked s.stats;
          places = set_at s.places cpu (inside due x (section_of due) loaded snapshot);
        })
    locks-IsSerial due x loaded snapshot e =
        let here =
          inside_here s.places cpu (inside due x (section_of due) loaded snapshot)
            (λ c _. none_inside e c) in
        record {
          fits =
              set_at-all (Fits (done ended).0 (locked s.stats)) s.places cpu _
                (λ c _. Fits-outside (done ended).0 (locked s.stats) (s.places c) (none_inside e c))
                (
                  refl,
                  loaded,
                  snapshot,
                  ap (λ f. execute_all x (section_of due) (at_work (locked f) loaded snapshot))
                      (w.free e),
                );
          alone = λ c d ic id. here c ic ∙ sym (here d id);
          free = λ f. absurd (false≢true (sym f));
          holder = λ _. (cpu, subst IsInside (sym (set_at_self s.places cpu _)) tt);
          sent = w.sent;
        }

    -- What holds where a CPU is inside: it fits, and no other one is inside.
    standing : {p : Place} → s.places cpu ≡ p → Fits (done ended).0 s.stats p
    standing at = subst (Fits (done ended).0 s.stats) at (w.fits cpu)

    others_outside :
        {p : Place} → s.places cpu ≡ p → IsInside p → (c : ℕ) → c ≢ cpu → ¬ IsInside (s.places c)
    others_outside at is c ne ic = ne (w.alone c cpu ic (subst IsInside (sym at) is))

    executes-IsSerial :
        (due : Bool) (x : Sample) (statement : Statement) (rest : List Statement) (loaded : ℕ)
        (snapshot : StatsSnapshot)
        → s.places cpu ≡ inside due x (statement ∷ rest) loaded snapshot
        → IsSerial ended
            (put_back s cpu due x rest (execute x statement (at_work s.stats loaded snapshot)))
    unfolding execute_all
    executes-IsSerial due x statement rest loaded snapshot at =
        let f = standing at in
        let v = execute x statement (at_work s.stats loaded snapshot) in
        let out = others_outside at tt in
        let here = inside_here s.places cpu (inside due x rest v.loaded v.snapshot) out in
        let held = execute-lock x statement (at_work s.stats loaded snapshot) ∙ f.0 in
        record {
          fits =
              set_at-all (Fits (done ended).0 v.stats) s.places cpu _
                (λ c ne. Fits-outside (done ended).0 v.stats (s.places c) (out c ne))
                (held, f.1, f.2, f.3);
          alone = λ c d ic id. here c ic ∙ sym (here d id);
          free = λ e. absurd (false≢true (sym e ∙ held));
          holder = λ _. (cpu, subst IsInside (sym (set_at_self s.places cpu _)) tt);
          sent = w.sent;
        }

    unlocks-IsSerial :
        (due : Bool) (x : Sample) (loaded : ℕ) (snapshot : StatsSnapshot)
        → s.places cpu ≡ inside due x [] loaded snapshot
        → IsSerial ((due, x) ∷ ended) (record {
          stats = record (s.stats) { lock = false };
          places = set_at s.places cpu away;
          sent = hand_on due snapshot s.sent;
        })
    unfolding execute_all finish_all
    unlocks-IsSerial due x loaded snapshot at =
        let (held, loaded', snapshot', runs) = standing at in
        let out = others_outside at tt in
        let f = (done ended).0 in
        let (stats, windows) = section_of-finish due x f (done ended).1 loaded' snapshot' in
        let next = (done ((due, x) ∷ ended)).0 in
        let v = execute_all x (section_of due) (at_work (locked f) loaded' snapshot') in
        let low : f.lock ≡ false = finish_all-lock start ended ∙ unheld in
        let gone : (c : ℕ) → ¬ IsInside (set_at s.places cpu away c) = λ c is.
          elim (set_at-cases s.places cpu c away) [
            | inl (same, e) ↦ subst IsInside e is
            | inr (apart, e) ↦ out c apart (subst IsInside e is)
          ] in
        record {
          fits =
              set_at-all (Fits next (record (s.stats) { lock = false })) s.places cpu _
                (λ c ne.
                  Fits-outside next (record (s.stats) { lock = false }) (s.places c) (out c ne))
                tt;
          alone = λ c d ic id. absurd (gone c ic);
          free = λ _.
              (ap (λ u. record (u.stats) { lock = false }) runs
                ∙ (ap (λ b. record (v.stats) { lock = b }) (sym low) ∙ stats));
          holder = λ e. absurd (false≢true e);
          sent =
              ap (λ u. hand_on due u.snapshot s.sent) runs
              ∙ (ap (hand_on due v.snapshot) w.sent ∙ windows);
        }

  Move-IsSerial :
      (ended new : List (Bool × Sample)) (cpu : ℕ) (s t : Sharing)
      → IsSerial ended s
      → Move cpu s new t
      → IsSerial (new ++ ended) t
  Move-IsSerial ended new cpu s t w (tests x at) = tests-IsSerial ended cpu s w x at
  Move-IsSerial ended new cpu s t w (locks {due} {x} loaded snapshot at e) =
      locks-IsSerial ended cpu s w due x loaded snapshot e
  Move-IsSerial ended new cpu s t w (executes {due} {x} {statement} {rest} {loaded} {snapshot} at) =
      executes-IsSerial ended cpu s w due x statement rest loaded snapshot at
  Move-IsSerial ended new cpu s t w (unlocks {due} {x} {loaded} {snapshot} at) =
      unlocks-IsSerial ended cpu s w due x loaded snapshot at

  -- However the CPUs interleave at the statistics of a prefix whose lock is free at first: at most
  -- one of them is under the lock, which is held exactly then. The windows that have been handed on,
  -- and the statistics whenever the lock is free, are those that the sections that have ended give
  -- one after another, each as a whole.
  pub Moves-IsSerial :
      (ended : List (Bool × Sample)) (t : Sharing) → Moves (calm start) ended t → IsSerial ended t
  unfolding finish_all
  Moves-IsSerial ended t none_yet = record {
    fits = λ c. tt;
    alone = λ c d ic id. absurd ic;
    free = λ _. refl;
    holder = λ held. absurd (false≢true (sym unheld ∙ held));
    sent = refl;
  }
  Moves-IsSerial ended u (one_more {cpu} {ended = past} {new} {t} moves move) =
      Move-IsSerial past new cpu t u (Moves-IsSerial past t moves) move
