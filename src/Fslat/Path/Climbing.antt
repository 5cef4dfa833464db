-- ===== src/Fslat/Path/Climbing.antt =====
-- A step of the walk of lib.rs that finds a name.
use ebpf_ldms.Prelude.{
  add32, ℕ, ◌+◌, ◌%◌, ◌≤◌, ◌≡◌, refl, arith, List, ◌∷◌, get_elem?-lt, length, ltb, if◌then◌else◌,
}
use ebpf_ldms.Bpf.ModNum.{ModNum}
use ebpf_ldms.Bpf.Kernel.{Kernel}
use ebpf_ldms.Fslat.Maps.{PathComponent}
use ebpf_ldms.Fslat.Path.Walking.{WalkState, record_component, next_component}
use ebpf_ldms.Fslat.Path.Spec.{name_of}
use ebpf_ldms.Fslat.Path.Slots.{IsRing, Holds, overwrite-IsSlot, set-IsRing, set-Holds}

module _ (num : ModNum 16) (kernel : Kernel) where
  -- The walk has found the names, the latest first.
  pub record Found (s : WalkState num) (names : List (List ℕ)) : Type 0 where
    pub ring : IsRing s.pathbuftmp
    pub loop_ctr : s.ctx.loop_ctr ≡ length names
    pub next : num.value s.ctx.mod_ctr ≡ length names % 16
    pub holds : Holds s.pathbuftmp (length names % 16) names

  -- A step that finds a name goes to the parent dentry, and stops after the 33rd name.
  pub record Climbed (s t : WalkState num) (names : List (List ℕ)) : Type 0 where
    pub found : Found t (name_of kernel s.ctx.dentry ∷ names)
    pub dentry : t.ctx.dentry ≡ (kernel.dentry s.ctx.dentry).d_parent
    pub mnt : t.ctx.mnt ≡ s.ctx.mnt
    pub root_dentry : t.ctx.root_dentry ≡ s.ctx.root_dentry
    pub root_vfsmount : t.ctx.root_vfsmount ≡ s.ctx.root_vfsmount
    pub is_absolute : t.ctx.is_absolute ≡ s.ctx.is_absolute

  next_component-Climbed :
      (s : WalkState num) (names : List (List ℕ)) (comp : PathComponent)
      → Found s names
      → length names ≤ 32
      → length comp.pathcomp ≡ 32
      → Climbed s (next_component num kernel s comp) names
  unfolding next_component
  next_component-Climbed s names comp f small size =
      let name = name_of kernel s.ctx.dentry in
      let fits = kernel.read_str-lt (kernel.dentry s.ctx.dentry).d_name.name 32 (omega arith) in
      let slot = overwrite-IsSlot comp.pathcomp name size fits in
      let ring = set-IsRing s.pathbuftmp (num.value s.ctx.mod_ctr) _ f.ring slot.size in
      record {
        found = record {
          ring = ring;
          loop_ctr = omega (arith, f.loop_ctr);
          next = omega (arith, num.value-add s.ctx.mod_ctr 1, f.next);
          holds =
              set-Holds s.pathbuftmp (length names % 16) _ _ names _ name f.ring (omega arith)
                f.holds slot f.next (omega arith);
        };
        dentry = refl;
        mnt = refl;
        root_dentry = refl;
        root_vfsmount = refl;
        is_absolute = refl;
      }

  pub record_component-Climbed :
      (s : WalkState num) (names : List (List ℕ))
      → Found s names
      → length names ≤ 32
      → (t : WalkState num) × (record_component num kernel s
          ≡ (t, if ltb 32 (length names + 1) then 1 else 0))
        × Climbed s t names
  unfolding record_component
  record_component-Climbed s names f small =
      let (comp, e) =
        get_elem?-lt s.pathbuftmp (num.value s.ctx.mod_ctr)
          (omega (arith, f.ring.count, num.value-lt s.ctx.mod_ctr)) in
      let ctr : add32 s.ctx.loop_ctr 1 ≡ length names + 1 = omega (arith, f.loop_ctr) in
      (
        next_component num kernel s comp,
        rw (e, ctr, record_component),
        next_component-Climbed s names comp f small (f.ring.sizes _ comp e),
      )
