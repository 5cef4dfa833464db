-- ===== src/Fslat/Path/Walk.antt =====
-- The walk of lib.rs finds the names that the specification describes.
use ebpf_ldms.Prelude.{
  ℕ, zero, suc, ◌+◌, ◌-◌, ◌≤◌, ◌≡◌, refl, ◌∙◌, arith, List, ◌∷◌, Bool, true, false, length, ltb,
  ◌==◌, Bool-cases, inl, inr,
}
use ebpf_ldms.Bpf.Helpers.{rounds, rounds_next, rounds_stop}
use ebpf_ldms.Bpf.ModNum.{ModNum}
use ebpf_ldms.Bpf.Kernel.{Kernel}
use ebpf_ldms.Fslat.Path.Walking.{WalkState, record_component, path_walk_step}
use ebpf_ldms.Fslat.Path.Spec.{
  name_of, at_root, at_mount_root, climb, climb_root, climb_mounted, climb_top, climb_last,
  climb_below,
}
use ebpf_ldms.Fslat.Path.Climbing.{Found, Climbed, record_component-Climbed}

module _ (num : ModNum 16) (kernel : Kernel) where
  module _ (i : ℕ) (s : WalkState num) where
    abbrev pub stopped : WalkState num
    stopped = record s { ctx = record (s.ctx) { is_absolute = true } }

    abbrev pub mounted : WalkState num
    mounted = record s {
      ctx = record (s.ctx) {
        dentry = (kernel.mount s.ctx.mnt).mnt_mountpoint;
        mnt = (kernel.mount s.ctx.mnt).mnt_parent;
      };
    }

    pub step_root :
        at_root s.ctx.root_dentry s.ctx.root_vfsmount s.ctx.dentry s.ctx.mnt ≡ true
        → path_walk_step num kernel i s ≡ (stopped, 1)
    unfolding path_walk_step
    step_root e = rw e

    module _
        (low : at_root s.ctx.root_dentry s.ctx.root_vfsmount s.ctx.dentry s.ctx.mnt ≡ false) where
      pub step_mounted :
          at_mount_root kernel s.ctx.dentry s.ctx.mnt ≡ true
          → path_walk_step num kernel i s ≡ (mounted, 0)
      unfolding path_walk_step
      step_mounted e = rw (low, e)

      module _ (inside : at_mount_root kernel s.ctx.dentry s.ctx.mnt ≡ false) where
        pub step_top :
            s.ctx.dentry == (kernel.dentry s.ctx.dentry).d_parent ≡ true
            → path_walk_step num kernel i s ≡ (stopped, 1)
        unfolding path_walk_step
        step_top e = rw (low, inside, e)

        pub step_below :
            s.ctx.dentry == (kernel.dentry s.ctx.dentry).d_parent ≡ false
            → path_walk_step num kernel i s ≡ record_component num kernel s
        unfolding path_walk_step
        step_below e = rw (low, inside, e)

    pub stopped-Found :
        (names : List (List ℕ)) → Found num kernel s names → Found num kernel stopped names
    stopped-Found names f = record {
      ring = f.ring;
      loop_ctr = f.loop_ctr;
      next = f.next;
      holds = f.holds;
    }

    pub mounted-Found :
        (names : List (List ℕ)) → Found num kernel s names → Found num kernel mounted names
    mounted-Found names f = record {
      ring = f.ring;
      loop_ctr = f.loop_ctr;
      next = f.next;
      holds = f.holds;
    }

  -- What the loop has when it ends, against the specified result.
  pub record Agrees (t : WalkState num) (r : List (List ℕ) × Bool) : Type 0 where
    pub found : Found num kernel t r.0
    pub is_absolute : t.ctx.is_absolute ≡ r.1
    pub count : length r.0 ≤ 33

  -- The specified climb from the place where the walk stands.
  abbrev pub climb_from : ℕ → ℕ → WalkState num → List (List ℕ) → List (List ℕ) × Bool
  climb_from fuel room s =
      climb kernel s.ctx.root_dentry s.ctx.root_vfsmount fuel room s.ctx.dentry s.ctx.mnt

  climb_below-Climbed :
      (n room : ℕ) (s t : WalkState num) (names : List (List ℕ))
      → at_root s.ctx.root_dentry s.ctx.root_vfsmount s.ctx.dentry s.ctx.mnt ≡ false
      → at_mount_root kernel s.ctx.dentry s.ctx.mnt ≡ false
      → s.ctx.dentry == (kernel.dentry s.ctx.dentry).d_parent ≡ false
      → room == 0 ≡ false
      → Climbed num kernel s t names
      → climb_from (suc n) room s names
        ≡ climb_from n (room - 1) t (name_of kernel s.ctx.dentry ∷ names)
  climb_below-Climbed n room s t names low inside under more c =
      rw (c.root_dentry, c.root_vfsmount, c.dentry, c.mnt)
        (climb_below kernel _ _ n room s.ctx.dentry s.ctx.mnt names low inside under more)

  -- The walk from a component that is neither the root nor the root of a mount.
  walk_up-Agrees :
      (n room i : ℕ) (s : WalkState num) (names : List (List ℕ))
      → ((t : WalkState num)
          → Climbed num kernel s t names
          → room == 0 ≡ false
          → Agrees
              (rounds n (suc i) (path_walk_step num kernel) t)
              (climb_from n (room - 1) t (name_of kernel s.ctx.dentry ∷ names)))
      → Found num kernel s names
      → length names + room ≡ 32
      → s.ctx.is_absolute ≡ false
      → at_root s.ctx.root_dentry s.ctx.root_vfsmount s.ctx.dentry s.ctx.mnt ≡ false
      → at_mount_root kernel s.ctx.dentry s.ctx.mnt ≡ false
      → s.ctx.dentry == (kernel.dentry s.ctx.dentry).d_parent ≡ false
      → Agrees (rounds (suc n) i (path_walk_step num kernel) s) (climb_from (suc n) room s names)
  walk_up-Agrees n room i s names ih f sum ea low inside under =
      let (t, e, c) = record_component-Climbed num kernel s names f (omega arith) in
      let step = step_below i s low inside under ∙ e in
      elim (Bool-cases (room == 0)) [
        | inl last ↦
            let code : ltb 32 (length names + 1) ≡ true = ground arith in
            rw
              (
                rounds_stop n i (path_walk_step num kernel) s t (rw code at step),
                climb_last kernel _ _ n room s.ctx.dentry s.ctx.mnt names low inside under last,
              )
              (record { found = c.found; is_absolute = c.is_absolute ∙ ea; count = omega arith })
        | inr more ↦
            let code : ltb 32 (length names + 1) ≡ false = ground arith in
            rw
              (
                rounds_next n i (path_walk_step num kernel) s t (rw code at step),
                climb_below-Climbed n room s t names low inside under more c,
              )
              (ih t c more)
      ]

  walk_on :
      (n room i : ℕ) (s : WalkState num) (names : List (List ℕ))
      → ((room i : ℕ) (s : WalkState num) (names : List (List ℕ))
          → Found num kernel s names
          → length names + room ≡ 32
          → s.ctx.is_absolute ≡ false
          → Agrees (rounds n i (path_walk_step num kernel) s) (climb_from n room s names))
      → Found num kernel s names
      → length names + room ≡ 32
      → s.ctx.is_absolute ≡ false
      → Agrees (rounds (suc n) i (path_walk_step num kernel) s) (climb_from (suc n) room s names)
  walk_on n room i s names ih f sum ea = elim (Bool-cases (at_root rd rv d m)) [
    | inl e ↦
        rw (rounds_stop n i _ s _ (step_root i s e), climb_root kernel rd rv n room d m names e)
          (record { found = stopped-Found i s names f; is_absolute = refl; count = omega arith })
    | inr low ↦ elim (Bool-cases (at_mount_root kernel d m)) [
      | inl e ↦
          rw
            (
              rounds_next n i _ s _ (step_mounted i s low e),
              climb_mounted kernel rd rv n room d m names low e,
            )
            (ih room (suc i) _ names (mounted-Found i s names f) sum ea)
      | inr inside ↦ elim (Bool-cases (d == (kernel.dentry d).d_parent)) [
        | inl e ↦
            rw
              (
                rounds_stop n i _ s _ (step_top i s low inside e),
                climb_top kernel rd rv n room d m names low inside e,
              )
              (record {
                found = stopped-Found i s names f;
                is_absolute = refl;
                count = omega arith;
              })
        | inr under ↦
            walk_up-Agrees n room i s names
              (λ t c more.
                ih (room - 1) (suc i) t (name_of kernel d ∷ names) c.found (ground arith)
                  (c.is_absolute ∙ ea))
              f sum ea low inside under
      ]
    ]
  ]
    where
      open s.ctx use {dentry as d, mnt as m, root_dentry as rd, root_vfsmount as rv}

  -- The loop that has found some names goes on to what the specified climb finds from there.
  pub walk-Agrees :
      (n room i : ℕ) (s : WalkState num) (names : List (List ℕ))
      → Found num kernel s names
      → length names + room ≡ 32
      → s.ctx.is_absolute ≡ false
      → Agrees (rounds n i (path_walk_step num kernel) s) (climb_from n room s names)
  unfolding rounds climb
  walk-Agrees zero room i s names f sum ea = record {
    found = f;
    is_absolute = ea;
    count = omega arith;
  }
  walk-Agrees (suc n) room i s names f sum ea = walk_on n room i s names (walk-Agrees n) f sum ea
