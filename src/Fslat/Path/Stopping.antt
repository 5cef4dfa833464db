-- ===== src/Fslat/Path/Stopping.antt =====
-- The walk of `path_walk_step` of lib.rs stops by itself, in whatever memory.
use ebpf_ldms.Prelude.{
  ℕ, zero, suc, ◌+◌, ◌≤◌, ◌≡◌, sym, ◌∙◌, arith, List, [], ◌∷◌, Bool, true, false, not, ◌&&◌, length,
  ltb, ◌==◌, if◌then◌else◌, Bool-cases, inl, inr,
}
use ebpf_ldms.Bpf.Helpers.{Helpers, rounds, rounds_next, rounds_stop}
use ebpf_ldms.Bpf.ModNum.{ModNum}
use ebpf_ldms.Bpf.Kernel.{Kernel, FilePath}
use ebpf_ldms.Fslat.Maps.{PathComponent}
use ebpf_ldms.Fslat.Path.Slots.{IsRing}
use ebpf_ldms.Fslat.Path.Walking.{WalkState, walk_ctx, path_walk_step}
use ebpf_ldms.Fslat.Path.Spec.{name_of, at_root, at_mount_root}
use ebpf_ldms.Fslat.Path.Whole.{start-Found}
use ebpf_ldms.Fslat.Path.Climbing.{Found, record_component-Climbed}
use ebpf_ldms.Fslat.Path.Walk.{
  mounted, step_root, step_mounted, step_top, step_below, mounted-Found,
}

module _ (num : ModNum 16) (kernel : Kernel) where
  -- The walk goes from a mount to the one that it is mounted on.
  abbrev crosses : WalkState num → Bool
  crosses s =
      not (at_root s.ctx.root_dentry s.ctx.root_vfsmount s.ctx.dentry s.ctx.mnt)
      && at_mount_root kernel s.ctx.dentry s.ctx.mnt

  -- How often it does so in the first calls of the callback, up to the one that stops the loop.
  unfoldable pub crossings : ℕ → ℕ → WalkState num → ℕ
  crossings zero i s = 0
  crossings (suc n) i s =
      let (t, code) = path_walk_step num kernel i s in
      let rest = crossings n (suc i) t in
      if code == 0 then (if crosses s then suc rest else rest) else 0

  -- The callback is called so many times, and the last call stops the loop.
  pub data Stops : ℕ → WalkState num → ℕ → Type 0 where
    at_once : {i : ℕ} {s t : WalkState num} → path_walk_step num kernel i s ≡ (t, 1) → Stops i s 1
    after_one :
        {i k : ℕ} {s t : WalkState num}
        → path_walk_step num kernel i s ≡ (t, 0)
        → Stops (suc i) t k
        → Stops i s (suc k)

  -- With more rounds than it takes, the loop ends in the same state.
  rounds_Stops :
      (n i k : ℕ) (s : WalkState num)
      → Stops i s k
      → k ≤ n
      → rounds n i (path_walk_step num kernel) s ≡ rounds k i (path_walk_step num kernel) s
  rounds_Stops zero i k s (at_once e) le = absurd (omega arith)
  rounds_Stops zero i k s (after_one e later) le = absurd (omega arith)
  rounds_Stops (suc n) i k s (at_once {t} e) le =
      rounds_stop n i _ s t e ∙ sym (rounds_stop 0 i _ s t e)
  rounds_Stops (suc n) i k s (after_one {k = k'} {t} e later) le =
      rounds_next n i _ s t e
      ∙ (rounds_Stops n (suc i) k' t later (omega arith) ∙ sym (rounds_next k' i _ s t e))

  module _ (n i : ℕ) (s t : WalkState num) (e : path_walk_step num kernel i s ≡ (t, 0)) where
    crossings_cross : crosses s ≡ true → crossings (suc n) i s ≡ suc (crossings n (suc i) t)
    unfolding crossings
    crossings_cross c = rw (crossings, e, c)

    crossings_stay : crosses s ≡ false → crossings (suc n) i s ≡ crossings n (suc i) t
    unfolding crossings
    crossings_stay c = rw (crossings, e, c)

  -- From a component that is neither the root nor the root of a mount.
  climb_on :
      (n i : ℕ) (s t : WalkState num) (names : List (List ℕ))
      → (length names + 1 ≤ 32
          → crossings n (suc i) t + 33 ≤ n + (length names + 1)
          → (k : ℕ) × (k ≤ n) × Stops (suc i) t k)
      → length names ≤ 32
      → path_walk_step num kernel i s ≡ (t, if ltb 32 (length names + 1) then 1 else 0)
      → crosses s ≡ false
      → crossings (suc n) i s + 33 ≤ suc n + length names
      → (k : ℕ) × (k ≤ suc n) × Stops i s k
  climb_on n i s t names ih few step stays enough = elim (Bool-cases (ltb 32 (length names + 1))) [
    | inl last ↦ (1, omega arith, at_once (rw last at step))
    | inr more ↦
        let on = rw more at step in
        let same = crossings_stay n i s t on stays in
        let (k, le, stops) = ih (ground arith) (omega (arith, same)) in
        (suc k, omega arith, after_one on stops)
  ]

  -- The walk that has found some names stops before it has found 33.
  walk-Stops :
      (n i : ℕ) (s : WalkState num) (names : List (List ℕ))
      → Found num kernel s names
      → length names ≤ 32
      → crossings n i s + 33 ≤ n + length names
      → (k : ℕ) × (k ≤ n) × Stops i s k
  walk-Stops zero i s names f few enough = absurd (omega arith)
  walk-Stops (suc n) i s names f few enough = elim (Bool-cases (at_root rd rv d m)) [
    | inl e ↦ (1, omega arith, at_once (step_root num kernel i s e))
    | inr low ↦ elim (Bool-cases (at_mount_root kernel d m)) [
      | inl e ↦
          let step = step_mounted num kernel i s low e in
          let more = crossings_cross n i s _ step (rw (low, e)) in
          let (k, le, stops) =
            walk-Stops n (suc i) (mounted num kernel i s) names
              (mounted-Found num kernel i s names f) few (omega (arith, more)) in
          (suc k, omega arith, after_one step stops)
      | inr inside ↦ elim (Bool-cases (d == (kernel.dentry d).d_parent)) [
        | inl e ↦ (1, omega arith, at_once (step_top num kernel i s low inside e))
        | inr under ↦
            let (t, climbs, c) = record_component-Climbed num kernel s names f few in
            let step = step_below num kernel i s low inside under ∙ climbs in
            climb_on n i s t names
              (λ small left.
                walk-Stops n (suc i) t (name_of kernel d ∷ names) c.found (omega (arith, small))
                  (omega (arith, left)))
              few step (rw (low, inside)) enough
      ]
    ]
  ]
    where
      open s.ctx use {dentry as d, mnt as m, root_dentry as rd, root_vfsmount as rv}

  -- The state in which the walk begins.
  abbrev pub walk_start : FilePath → List PathComponent → WalkState num
  walk_start path slots = record { ctx = walk_ctx num kernel path; pathbuftmp = slots }

  -- In whatever memory, cycles included, a walk in a ring of 16 slots that crosses at most 31 mounts
  -- in its first 64 calls stops by itself within them: one of these calls returns 1, and the loop
  -- ends in the same state with any larger number of rounds.
  pub path_walk_step-Stops :
      (helpers : Helpers) (path : FilePath) (slots : List PathComponent)
      → IsRing slots
      → crossings 64 0 (walk_start path slots) ≤ 31
      → (k : ℕ) × (k ≤ 64)
        × Stops 0 (walk_start path slots) k
        × ((extra : ℕ)
            → helpers.bpf_loop
                (WalkState num)
                (64 + extra)
                (path_walk_step num kernel)
                (walk_start path slots)
              ≡ helpers.bpf_loop
                  (WalkState num)
                  64
                  (path_walk_step num kernel)
                  (walk_start path slots))
  path_walk_step-Stops helpers path slots ring few =
      let s = walk_start path slots in
      let (k, le, stops) =
        walk-Stops 64 0 s [] (start-Found num kernel path slots ring) (omega arith)
          (omega (arith, few)) in
      (
        k,
        le,
        stops,
        λ extra.
            rw
              (
                helpers.bpf_loop_lem (WalkState num) (64 + extra),
                helpers.bpf_loop_lem (WalkState num) 64,
              )
              (rounds_Stops (64 + extra) 0 k s stops (omega (arith, le))
                ∙ sym (rounds_Stops 64 0 k s stops le)),
      )
