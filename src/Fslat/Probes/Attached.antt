-- ===== src/Fslat/Probes/Attached.antt =====
-- The loader of producers/fslatency/vfslatency/src/main.rs attaches the programs of
-- producers/fslatency/vfslatency-ebpf/src/main.rs.
use ebpf_ldms.Prelude.{same_text, ℕ, ◌≡◌, refl, sym, subst, ◌⊎◌, inl, inr, List, [], ◌∷◌, some}
use ebpf_ldms.Fslat.Probes.{
  FslatProbe, Kind, fentry, fexit, fslat_probes, programs, program_mut, probes, Aya, Outcome,
  attached, failed, panics, start_program, attach_fentry, attach_fexit, attach_probe_pair,
  attach_all,
}

-- The loader's table names the programs of the given probes, in their order, and finds each of them
-- with its kind.
abbrev Aligned : List (List ℕ × Kind) → List FslatProbe → List (List ℕ × List ℕ × List ℕ) → Type 0
Aligned ebpf [] [] = Unit {0}
Aligned ebpf [] (q ∷ qs) = ⊥
Aligned ebpf (p ∷ ps) [] = ⊥
Aligned ebpf (p ∷ ps) (q ∷ qs) =
    (q ≡ (p.entry, p.exit, p.function))
    × (program_mut ebpf p.entry ≡ some fentry)
    × (program_mut ebpf p.exit ≡ some fexit)
    × Aligned ebpf ps qs

probes-Aligned : Aligned (programs fslat_probes) fslat_probes probes
unfolding programs fslat_probes probes program_mut same_text
probes-Aligned = (
  refl,
  refl,
  refl,
  (
    refl,
    refl,
    refl,
    (
      refl,
      refl,
      refl,
      (
        refl,
        refl,
        refl,
        (refl, refl, refl, (refl, refl, refl, (refl, refl, refl, (refl, refl, refl, tt)))),
      ),
    ),
  ),
)

module _ (aya : Aya) where
  -- The programs of the probes one after another, the entry of each before its exit, up to the
  -- first that fails.
  unfoldable pub start_all : List FslatProbe → aya.World → Outcome aya
  start_all [] w = attached w
  start_all (p ∷ ps) w = elim (start_program aya fentry p.entry p.function w) [
    | attached w' ↦ elim (start_program aya fexit p.exit p.function w') [
      | attached w'' ↦ start_all ps w''
      | failed w'' ↦ failed w''
      | panics ↦ panics
    ]
    | failed w' ↦ failed w'
    | panics ↦ panics
  ]

  pub Outcome-cases :
      (o : Outcome aya)
      → ((w : aya.World) × (o ≡ attached w)) ⊎ (((w : aya.World) × (o ≡ failed w)) ⊎ (o ≡ panics))
  Outcome-cases (attached w) = inl (w, refl)
  Outcome-cases (failed w) = inr (inl (w, refl))
  Outcome-cases panics = inr (inr refl)

  attach_first :
      (ebpf : List (List ℕ × Kind)) (p : FslatProbe) (ps : List FslatProbe)
      (qs : List (List ℕ × List ℕ × List ℕ)) (w : aya.World)
      → program_mut ebpf p.entry ≡ some fentry
      → program_mut ebpf p.exit ≡ some fexit
      → ((w' : aya.World) → attach_all aya ebpf qs w' ≡ start_all ps w')
      → attach_all aya ebpf ((p.entry, p.exit, p.function) ∷ qs) w ≡ start_all (p ∷ ps) w
  unfolding attach_all attach_probe_pair attach_fentry attach_fexit start_all
  attach_first ebpf p ps qs w ee ex go =
      elim (Outcome-cases (start_program aya fentry p.entry p.function w)) [
        | inr (inr g) ↦ rw (attach_all, ee, start_all, g)
        | inr (inl (w', g)) ↦ rw (attach_all, ee, start_all, g)
        | inl (w', g) ↦ elim (Outcome-cases (start_program aya fexit p.exit p.function w')) [
          | inr (inr h) ↦ rw (attach_all, ee, start_all, g, ex, h)
          | inr (inl (w'', h)) ↦ rw (attach_all, ee, start_all, g, ex, h)
          | inl (w'', h) ↦ rw (attach_all, ee, start_all, g, ex, h) (go w'')
        ]
      ]

  attach_all-start_all :
      (ebpf : List (List ℕ × Kind)) (ps : List FslatProbe) (qs : List (List ℕ × List ℕ × List ℕ))
      (w : aya.World)
      → Aligned ebpf ps qs
      → attach_all aya ebpf qs w ≡ start_all ps w
  unfolding attach_all attach_probe_pair start_all
  attach_all-start_all ebpf [] [] w a = refl
  attach_all-start_all ebpf [] (q ∷ qs) w a = absurd a
  attach_all-start_all ebpf (p ∷ ps) [] w a = absurd a
  attach_all-start_all ebpf (p ∷ ps) (q ∷ qs) w (e, ee, ex, a) =
      subst (λ x. attach_all aya ebpf (x ∷ qs) w ≡ start_all (p ∷ ps) w) (sym e)
        (attach_first ebpf p ps qs w ee ex (λ w'. attach_all-start_all ebpf ps qs w' a))

  -- The loader finds every program that it names among those of the eBPF program, with its kind,
  -- so that no unwrap panics: it starts the entry and the exit of all eight probes for their kernel
  -- functions, in the order of the probes, and stops at the first that cannot be loaded or attached.
  pub attach_all-fslat_probes :
      (w : aya.World) → attach_all aya (programs fslat_probes) probes w ≡ start_all fslat_probes w
  attach_all-fslat_probes w = attach_all-start_all (programs fslat_probes) _ _ w probes-Aligned
