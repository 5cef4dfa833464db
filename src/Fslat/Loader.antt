-- ===== src/Fslat/Loader.antt =====
-- The loader of the programs: `load_ebpf` and `main` of producers/fslatency/vfslatency/src/main.rs.
-- What it does to the kernel goes through one state, that of aya.
use ebpf_ldms.Prelude.{
  ℕ, ◌≡◌, refl, List, [], ◌∷◌, Bool, true, false, Option, some, none, if◌then◌else◌, Bool-cases,
  Option-cases, inl, inr,
}
use ebpf_ldms.Fslat.Probes.{
  FslatProbe, fentry, fexit, start_program, Kind, Aya, Outcome, attached, failed, panics,
  attach_all, probes, programs, fslat_probes,
}
use ebpf_ldms.Fslat.Probes.Attached.{Outcome-cases, start_all, attach_all-fslat_probes}

-- The calls of `main` around the attaching: whether the pinned ring exists, the limit on locked
-- memory with its result, the types of the kernel, the loading of the embedded object, with its
-- programs by name, the logger, the handler for Ctrl-C, and the wait for it.
pub record Host (aya : Aya) : Type 1 where
  pub exists : aya.World → Bool
  pub setrlimit : aya.World → ℕ × aya.World
  pub from_sys_fs : aya.World → Option aya.World
  pub load : aya.World → Option (List (List ℕ × Kind) × aya.World)
  pub init_logger : aya.World → Bool × aya.World
  pub set_handler : aya.World → Option aya.World
  pub recv : aya.World → aya.World

module _ (aya : Aya) (host : Host aya) where
  -- A logger that cannot be made is only logged.
  unfoldable pub load_ebpf : aya.World → Option (List (List ℕ × Kind) × aya.World)
  load_ebpf w = elim (host.load w) [
    | none ↦ none
    | some (ebpf, w') ↦ some (ebpf, (host.init_logger w').1)
  ]

  pub data Exit : Type 0 where
    stops errs : aya.World → Exit
    panicked : Exit

  -- From the attached programs on.
  unfoldable pub wait_for_stop : Outcome aya → Exit
  wait_for_stop (failed w) = errs w
  wait_for_stop panics = panicked
  wait_for_stop (attached w) = elim (host.set_handler w) [
    | none ↦ errs w
    | some w' ↦ stops (host.recv w')
  ]

  -- The result of `setrlimit` is only logged.
  unfoldable pub main : aya.World → Exit
  unfolding load_ebpf wait_for_stop
  main w =
      if host.exists w
      then (let (ret, w1) = host.setrlimit w in
          elim (host.from_sys_fs w1) [
            | none ↦ errs w1
            | some w2 ↦ elim (load_ebpf w2) [
              | none ↦ errs w2
              | some (ebpf, w3) ↦ wait_for_stop (attach_all aya ebpf probes w3)
            ]
          ])
      else errs w

  -- The ring is pinned, the types of the kernel are there, and the object loads.
  pub record IsLoaded (w w3 : aya.World) : Type 0 where
    pub w2 : aya.World
    pub ebpf : List (List ℕ × Kind)
    pub pinned : host.exists w ≡ true
    pub typed : host.from_sys_fs (host.setrlimit w).1 ≡ some w2
    pub loads : host.load w2 ≡ some (ebpf, w3)

  -- What comes of starting the entry and the exit of all eight probes, one after another, behind the
  -- logger.
  abbrev pub Starts : aya.World → Outcome aya → Type 0
  Starts w3 o = start_all aya fslat_probes (host.init_logger w3).1 ≡ o

  -- How `main` may end, where the object holds the programs of the eight probes.
  pub data Loads (w : aya.World) : Exit → Type 0 where
    unpinned : host.exists w ≡ false → Loads w (errs w)
    untyped :
        host.exists w ≡ true
        → host.from_sys_fs (host.setrlimit w).1 ≡ none
        → Loads w (errs (host.setrlimit w).1)
    unloaded :
        {w2 : aya.World}
        → host.exists w ≡ true
        → host.from_sys_fs (host.setrlimit w).1 ≡ some w2
        → host.load w2 ≡ none
        → Loads w (errs w2)
    unattached : {w3 w4 : aya.World} → IsLoaded w w3 → Starts w3 (failed w4) → Loads w (errs w4)
    unhandled :
        {w3 w4 : aya.World}
        → IsLoaded w w3
        → Starts w3 (attached w4)
        → host.set_handler w4 ≡ none
        → Loads w (errs w4)
    stopped :
        {w3 w4 w5 : aya.World}
        → IsLoaded w w3
        → Starts w3 (attached w4)
        → host.set_handler w4 ≡ some w5
        → Loads w (stops (host.recv w5))

  -- The outcome is not a panic.
  Returns : Outcome aya → Type 0
  Returns (attached w) = Unit {0}
  Returns (failed w) = Unit {0}
  Returns panics = ⊥

  start_program-Returns :
      (k : Kind) (name kernel_fn : List ℕ) (w : aya.World)
      → Returns (start_program aya k name kernel_fn w)
  unfolding start_program Returns
  start_program-Returns k name kernel_fn w = elim (Option-cases (aya.load name k kernel_fn w)) [
    | inl e ↦ rw (start_program, e) tt
    | inr (w', e) ↦ elim (Option-cases (aya.attach name w')) [
      | inl g ↦ rw (start_program, e, g) tt
      | inr (w'', g) ↦ rw (start_program, e, g) tt
    ]
  ]

  start_all-Returns : (ps : List FslatProbe) (w : aya.World) → Returns (start_all aya ps w)
  unfolding start_all Returns
  start_all-Returns [] w = tt
  start_all-Returns (p ∷ ps) w =
      elim (Outcome-cases aya (start_program aya fentry p.entry p.function w)) [
        | inr (inr g) ↦ absurd (rw g at (start_program-Returns fentry p.entry p.function w))
        | inr (inl (w', g)) ↦ rw (start_all, g) tt
        | inl (w', g) ↦ elim (Outcome-cases aya (start_program aya fexit p.exit p.function w')) [
          | inr (inr k) ↦ absurd (rw k at (start_program-Returns fexit p.exit p.function w'))
          | inr (inl (w'', k)) ↦ rw (start_all, g, k) tt
          | inl (w'', k) ↦ rw (start_all, g, k) (start_all-Returns ps w'')
        ]
      ]

  wait_for_stop-Loads :
      (w w3 : aya.World) (o : Outcome aya)
      → IsLoaded w w3
      → Starts w3 o
      → Returns o
      → Loads w (wait_for_stop o)
  unfolding wait_for_stop Returns
  wait_for_stop-Loads w w3 (attached w4) is starts r = elim (Option-cases (host.set_handler w4)) [
    | inl e ↦ rw (wait_for_stop, e) (unhandled is starts e)
    | inr (w5, e) ↦ rw (wait_for_stop, e) (stopped is starts e)
  ]
  wait_for_stop-Loads w w3 (failed w4) is starts r = unattached is starts
  wait_for_stop-Loads w w3 panics is starts r = absurd r

  load_ebpf_at :
      (w w' : aya.World) (ebpf : List (List ℕ × Kind))
      → host.load w ≡ some (ebpf, w')
      → load_ebpf w ≡ some (ebpf, (host.init_logger w').1)
  unfolding load_ebpf
  load_ebpf_at w w' ebpf e = rw (load_ebpf, e)

  load_ebpf-none : (w : aya.World) → host.load w ≡ none → load_ebpf w ≡ none
  unfolding load_ebpf
  load_ebpf-none w e = rw (load_ebpf, e)

  -- Where the embedded object, whenever it loads, holds the programs of the eight probes: the loader
  -- ends with an error and nothing done where the ring is not pinned, and with an error where there
  -- are no types of the kernel or the object does not load. Otherwise it starts the entry and the
  -- exit of all eight probes up to the first failure, which is an error. With all started it fails
  -- where the handler for Ctrl-C is refused, and else waits for Ctrl-C and succeeds. Neither the
  -- result of `setrlimit` nor that of the logger changes that, and no unwrap panics.
  pub main-Loads :
      (w : aya.World)
      → ((v v' : aya.World) (ebpf : List (List ℕ × Kind))
          → host.load v ≡ some (ebpf, v')
          → ebpf ≡ programs fslat_probes)
      → Loads w (main w)
  unfolding main
  main-Loads w object = elim (Bool-cases (host.exists w)) [
    | inr absent ↦ rw (main, absent) (unpinned absent)
    | inl pinned ↦ elim (Option-cases (host.from_sys_fs (host.setrlimit w).1)) [
      | inl untyped' ↦ rw (main, pinned, untyped') (untyped pinned untyped')
      | inr (w2, typed) ↦ elim (Option-cases (host.load w2)) [
        | inl e ↦ rw (main, pinned, typed, load_ebpf-none w2 e) (unloaded pinned typed e)
        | inr ((ebpf, w3), e) ↦
            rw
              (
                main,
                pinned,
                typed,
                load_ebpf_at w2 w3 ebpf e,
                object w2 w3 ebpf e,
                attach_all-fslat_probes aya (host.init_logger w3).1,
              )
              (wait_for_stop-Loads w w3 _
                (record { w2 = w2; ebpf = ebpf; pinned = pinned; typed = typed; loads = e }) refl
                (start_all-Returns fslat_probes (host.init_logger w3).1))
      ]
    ]
  ]
