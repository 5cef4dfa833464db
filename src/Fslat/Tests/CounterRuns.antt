-- ===== src/Fslat/Tests/CounterRuns.antt =====
-- CPUs that publish messages from number 41 on, by lib.rs.
use ebpf_ldms.Prelude.{set_at, ◌≡◌, refl, arith, [], ◌∷◌, add64}
use ebpf_ldms.Fslat.Counter.{
  Counting, outside, delivered, numbered, loaded, reads, puts, loads, stores, Accesses, none_yet,
  one_more,
}
use ebpf_ldms.Fslat.Counter.Races.{quiet, IsReached, AllReached, Accesses-IsReached, Accesses-twice}

-- One CPU alone.
Accesses-IsReached_example : IsReached 41 1 42 × AllReached 41 1 (41 ∷ [])
Accesses-IsReached_example =
    Accesses-IsReached 41 1
      (record {
        counter = 42;
        progress =
            set_at
              (set_at (set_at (set_at (λ c. outside) 3 (numbered 41)) 3 delivered) 3 (loaded 41)) 3
              outside;
        sent = 41 ∷ [];
      })
      (omega arith)
      (one_more {cpu = 3}
        (one_more {cpu = 3}
          (one_more {cpu = 3} (one_more {cpu = 3} none_yet (reads refl)) (puts {n = 41} refl))
          (loads refl))
        (stores {n = 41} refl))

Accesses-twice_example :
    (t : Counting) × Accesses (quiet 41) 2 t × (t.sent ≡ 41 ∷ 41 ∷ []) × (t.counter ≡ add64 41 1)
Accesses-twice_example = Accesses-twice 41 0 1 (λ e. absurd (omega (arith, e)))
