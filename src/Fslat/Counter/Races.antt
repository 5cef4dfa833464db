-- ===== src/Fslat/Counter/Races.antt =====
-- The numbers of messages that several CPUs publish at once, by lib.rs.
use ebpf_ldms.Prelude.{
  set_at, set_at-all, set_at_self, set_at_ne, ℕ, ◌+◌, ◌%◌, ◌^◌, ◌≤◌, ◌≡◌, ◌≢◌, refl, sym, ◌∙◌,
  subst, arith, List, [], ◌∷◌, ◌++◌, add64, IsU64,
}
use ebpf_ldms.Fslat.Counter.{
  Progress, outside, delivered, numbered, loaded, Counting, Access, reads, puts, fails, loads,
  stores, Accesses, none_yet, one_more,
}

module _ (first : ℕ) where
  -- The number is the first one, or one of the given many numbers behind it.
  abbrev pub IsReached : ℕ → ℕ → Type 0
  IsReached n v = (k : ℕ) × (k ≤ n) × (v ≡ (first + k) % 2 ^ 64)

  abbrev pub AllReached : ℕ → List ℕ → Type 0
  AllReached n [] = Unit {0}
  AllReached n (v ∷ vs) = IsReached n v × AllReached n vs

  abbrev Holds : ℕ → Progress → Type 0
  Holds n outside = Unit {0}
  Holds n delivered = Unit {0}
  Holds n (numbered v) = IsReached n v
  Holds n (loaded v) = IsReached n v

  record IsBehind (n : ℕ) (s : Counting) : Type 0 where
    counter : IsReached n s.counter
    progress : (c : ℕ) → Holds n (s.progress c)
    sent : AllReached n s.sent

  IsReached-later : (n v : ℕ) → IsReached n v → IsReached (n + 1) v
  IsReached-later n v (k, le, e) = (k, omega (arith, le), e)

  IsReached-next : (n v : ℕ) → IsReached n v → IsReached (n + 1) (add64 v 1)
  IsReached-next n v (k, le, e) = (k + 1, omega (arith, le), omega (arith, e))

  AllReached-later : (n : ℕ) (vs : List ℕ) → AllReached n vs → AllReached (n + 1) vs
  AllReached-later n [] a = tt
  AllReached-later n (v ∷ vs) (r, a) = (IsReached-later n v r, AllReached-later n vs a)

  AllReached-append :
      (n v : ℕ) (vs : List ℕ) → AllReached n vs → IsReached n v → AllReached n (vs ++ (v ∷ []))
  AllReached-append n v [] a r = (r, tt)
  AllReached-append n v (x ∷ vs) (here, a) r = (here, AllReached-append n v vs a r)

  Holds-later : (n : ℕ) (p : Progress) → Holds n p → Holds (n + 1) p
  Holds-later n outside a = tt
  Holds-later n delivered a = tt
  Holds-later n (numbered v) a = IsReached-later n v a
  Holds-later n (loaded v) a = IsReached-later n v a

  set_at-Holds :
      (n cpu : ℕ) (progress : ℕ → Progress) (p : Progress)
      → ((c : ℕ) → Holds n (progress c))
      → Holds n p
      → (c : ℕ) → Holds n (set_at progress cpu p c)
  set_at-Holds n cpu progress p all here = set_at-all (Holds n) progress cpu p (λ d _. all d) here

  -- What holds of the value that a CPU has at hand.
  at_hand :
      (n cpu : ℕ) (s : Counting) (p : Progress) → IsBehind n s → s.progress cpu ≡ p → Holds n p
  at_hand n cpu s p w e = subst (Holds n) e (w.progress cpu)

  same_count : (n : ℕ) (t : Counting) → IsBehind n t → IsBehind (n + 0) t
  same_count n t w = let e : n ≡ n + 0 = omega arith in subst (λ k. IsBehind k t) e w

  Access-IsBehind :
      (n k cpu : ℕ) (s t : Counting) → IsBehind n s → Access cpu s k t → IsBehind (n + k) t
  Access-IsBehind n k cpu s t w (reads at) = same_count n _ (record {
    counter = w.counter;
    progress = set_at-Holds n cpu s.progress _ w.progress w.counter;
    sent = w.sent;
  })
  Access-IsBehind n k cpu s t w (puts {n = v} at) = same_count n _ (record {
    counter = w.counter;
    progress = set_at-Holds n cpu s.progress _ w.progress tt;
    sent = AllReached-append n v s.sent w.sent (at_hand n cpu s (numbered v) w at);
  })
  Access-IsBehind n k cpu s t w (fails at) = same_count n _ (record {
    counter = w.counter;
    progress = set_at-Holds n cpu s.progress _ w.progress tt;
    sent = w.sent;
  })
  Access-IsBehind n k cpu s t w (loads at) = same_count n _ (record {
    counter = w.counter;
    progress = set_at-Holds n cpu s.progress _ w.progress w.counter;
    sent = w.sent;
  })
  Access-IsBehind n k cpu s t w (stores {n = v} at) = record {
    counter = IsReached-next n v (at_hand n cpu s (loaded v) w at);
    progress = λ c.
        Holds-later n (set_at s.progress cpu outside c)
          (set_at-Holds n cpu s.progress outside w.progress tt c);
    sent = AllReached-later n s.sent w.sent;
  }

  Accesses-IsBehind :
      (s : Counting) (n : ℕ) (t : Counting) → IsBehind 0 s → Accesses s n t → IsBehind n t
  Accesses-IsBehind s n t w none_yet = w
  Accesses-IsBehind s n t w (one_more {cpu} {n = i} {k} {t = u} past step) =
      Access-IsBehind i k cpu u t (Accesses-IsBehind s i u w past) step

-- Before any CPU publishes.
abbrev pub quiet : ℕ → Counting
quiet n = record { counter = n; progress = λ c. outside; sent = [] }

-- However the CPUs interleave, with a u64 in the counter at first: the counter, and the number of
-- every message in the ring, is the first number or one of as many behind it (modulo 2 ^ 64) as
-- publishings have ended. No number is ahead of its message.
pub Accesses-IsReached :
    (first n : ℕ) (t : Counting)
    → IsU64 first
    → Accesses (quiet first) n t
    → IsReached first n t.counter × AllReached first n t.sent
Accesses-IsReached first n t u steps =
    let w =
      Accesses-IsBehind first (quiet first) n t
        (record { counter = (0, omega arith, omega (arith, u)); progress = λ c. tt; sent = tt })
        steps in
    (w.counter, w.sent)

-- What a CPU is at, after a step of another one.
one_before : (f : ℕ → Progress) (c d : ℕ) (p q : Progress) → c ≢ d → set_at (set_at f c p) d q c ≡ p
one_before f c d p q ne = set_at_ne (set_at f c p) d c q ne ∙ set_at_self f c p

-- Two CPUs that publish at once may give two messages the same number, and lose a count: from every
-- u64 in the counter there are interleavings that put a number into the ring twice, and in which two
-- publishings move the counter by one.
pub Accesses-twice :
    (first cpu other : ℕ)
    → cpu ≢ other
    → (t : Counting) × Accesses (quiet first) 2 t
      × (t.sent ≡ first ∷ first ∷ [])
      × (t.counter ≡ add64 first 1)
Accesses-twice first cpu other ne =
    let away : other ≢ cpu = λ e. ne (sym e) in
    let p1 = set_at (λ c. outside) cpu (numbered first) in
    let p2 = set_at p1 other (numbered first) in
    let p3 = set_at p2 cpu delivered in
    let p4 = set_at p3 other delivered in
    let p5 = set_at p4 cpu (loaded first) in
    let p6 = set_at p5 other (loaded first) in
    let p7 = set_at p6 cpu outside in
    (
      record {
        counter = add64 first 1;
        progress = set_at p7 other outside;
        sent = first ∷ first ∷ [];
      },
      one_more {cpu = other}
          (one_more {cpu = cpu}
            (one_more {cpu = other}
              (one_more {cpu = cpu}
                (one_more {cpu = other}
                  (one_more {cpu = cpu}
                    (one_more {cpu = other} (one_more {cpu = cpu} none_yet (reads refl))
                      (reads (set_at_ne (λ c. outside) cpu other (numbered first) away)))
                    (puts {n = first} (one_before (λ c. outside) cpu other _ _ ne)))
                  (puts {n = first} (one_before p1 other cpu _ _ away)))
                (loads (one_before p2 cpu other _ _ ne)))
              (loads (one_before p3 other cpu _ _ away)))
            (stores {n = first} (one_before p4 cpu other _ _ ne)))
          (stores {n = first} (one_before p5 other cpu _ _ away)),
      refl,
      refl,
    )
