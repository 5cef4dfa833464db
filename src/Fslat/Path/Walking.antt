-- ===== src/Fslat/Path/Walking.antt =====
-- The walk from a file up to the root: `path_walk_step` of
-- producers/fslatency/vfslatency-common/src/lib.rs, and the context in which it begins. A context that the source passes by a pointer
-- is a state, together with the map PATHBUFTMP, a list of as many components as the map has.
use ebpf_ldms.Prelude.{
  ℕ, List, [], ◌∷◌, ◌++◌, Bool, true, false, not, ◌&&◌, some, none, ltb, ◌==◌, if◌then◌else◌,
  get_elem?, set, length, add32, add64, sub64,
}
use ebpf_ldms.Bpf.Helpers.{overwrite}
use ebpf_ldms.Bpf.ModNum.{ModNum}
use ebpf_ldms.Bpf.Kernel.{Kernel, FilePath}
use ebpf_ldms.Fslat.Maps.{PathComponent, pathcomplen, max_parent}

-- `offset_of!(vmlinux::mount, mnt)`: a list node of 16 bytes and two pointers stand before `mnt`.
abbrev pub mnt_offset : ℕ
mnt_offset = 32

-- The address of the `mount` around a `vfsmount`, and of the `vfsmount` inside a `mount`.
abbrev pub mount_of : ℕ → ℕ
mount_of vfsmount = sub64 vfsmount mnt_offset

abbrev pub vfsmount_of : ℕ → ℕ
vfsmount_of mnt = add64 mnt mnt_offset

module _ (num : ModNum 16) where
  pub record PathWalkCtx : Type 0 where
    pub dentry : ℕ
    pub mnt : ℕ
    pub loop_ctr : ℕ
    pub mod_ctr : num.Num
    pub root_dentry : ℕ
    pub root_vfsmount : ℕ
    pub is_absolute : Bool

  pub record WalkState : Type 0 where
    pub ctx : PathWalkCtx
    pub pathbuftmp : List PathComponent

  module _ (kernel : Kernel) where
    -- The name of the dentry goes into the slot `comp`, and the walk to the parent.
    unfoldable pub next_component : WalkState → PathComponent → WalkState
    next_component s comp =
        let c = s.ctx in
        let dentry = kernel.dentry c.dentry in
        let name = kernel.read_str dentry.d_name.name pathcomplen in
        record {
          ctx = record c {
            dentry = dentry.d_parent;
            loop_ctr = add32 c.loop_ctr 1;
            mod_ctr = num.add c.mod_ctr 1;
          };
          pathbuftmp = set s.pathbuftmp (num.value c.mod_ctr) (record {
            len = length name;
            pathcomp = overwrite comp.pathcomp 0 (name ++ (0 ∷ []));
          });
        }

    -- The end of a step that has found a component.
    unfoldable pub record_component : WalkState → WalkState × ℕ
    unfolding next_component
    record_component s = elim (get_elem? s.pathbuftmp (num.value s.ctx.mod_ctr)) [
      | none ↦ (s, 1)
      | some comp ↦
          (next_component s comp, if ltb max_parent (add32 s.ctx.loop_ctr 1) then 1 else 0)
    ]

    unfoldable pub path_walk_step : ℕ → WalkState → WalkState × ℕ
    unfolding record_component
    path_walk_step index s =
        let c = s.ctx in
        let parent = (kernel.dentry c.dentry).d_parent in
        let vfsmount = vfsmount_of c.mnt in
        let mnt_root = (kernel.vfsmount vfsmount).mnt_root in
        let parent_mnt = (kernel.mount c.mnt).mnt_parent in
        if c.dentry == c.root_dentry && vfsmount == c.root_vfsmount
        then (record s { ctx = record c { is_absolute = true } }, 1)
        else if c.dentry == mnt_root && not (c.mnt == parent_mnt)
        then (
          record s {
            ctx = record c { dentry = (kernel.mount c.mnt).mnt_mountpoint; mnt = parent_mnt };
          },
          0,
        )
        else if c.dentry == parent
        then (record s { ctx = record c { is_absolute = true } }, 1)
        else record_component s

    -- The context in which the walk from a path begins.
    unfoldable pub walk_ctx : FilePath → PathWalkCtx
    walk_ctx path =
        let root = (kernel.fs_struct kernel.current.fs).root in
        record {
          dentry = path.dentry;
          mnt = mount_of path.mnt;
          loop_ctr = 0;
          mod_ctr = num.new 0;
          root_dentry = root.dentry;
          root_vfsmount = root.mnt;
          is_absolute = false;
        }
