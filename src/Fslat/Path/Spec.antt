-- ===== src/Fslat/Path/Spec.antt =====
-- The path that the probe is to find, described without a ring, a buffer or a counter that wraps.
use ebpf_ldms.Prelude.{
  ℕ, zero, suc, ◌-◌, ◌≡◌, ◌≢◌, List, [], ◌∷◌, ◌++◌, Bool, true, false, not, ◌&&◌, ◌==◌,
  if◌then◌else◌, take, replicate, length,
}
use ebpf_ldms.Bpf.Kernel.{Kernel}
use ebpf_ldms.Fslat.Maps.{pathcomplen, pathfraglen, num_comp}
use ebpf_ldms.Fslat.Path.Walking.{vfsmount_of}

-- The name of a dentry, as far as it fits a component.
abbrev pub name_of : Kernel → ℕ → List ℕ
name_of kernel dentry = kernel.read_str (kernel.dentry dentry).d_name.name pathcomplen

abbrev pub at_root : ℕ → ℕ → ℕ → ℕ → Bool
at_root root_dentry root_vfsmount dentry mnt =
    dentry == root_dentry && vfsmount_of mnt == root_vfsmount

-- At the root of a mount that is mounted on another one.
abbrev pub at_mount_root : Kernel → ℕ → ℕ → Bool
at_mount_root kernel dentry mnt =
    dentry == (kernel.vfsmount (vfsmount_of mnt)).mnt_root
    && not (mnt == (kernel.mount mnt).mnt_parent)

module _ (kernel : Kernel) (root_dentry root_vfsmount : ℕ) where
  -- The names above a dentry, in front of those found before, and whether the root was reached,
  -- in at most `fuel` steps and `room + 1` names.
  unfoldable pub climb : ℕ → ℕ → ℕ → ℕ → List (List ℕ) → List (List ℕ) × Bool
  climb zero room dentry mnt names = (names, false)
  climb (suc fuel) room dentry mnt names =
      let parent = (kernel.dentry dentry).d_parent in
      let names' = name_of kernel dentry ∷ names in
      let hop =
        climb fuel room (kernel.mount mnt).mnt_mountpoint (kernel.mount mnt).mnt_parent names in
      let up = climb fuel (room - 1) parent mnt names' in
      if at_root root_dentry root_vfsmount dentry mnt
      then (names, true)
      else if at_mount_root kernel dentry mnt
      then hop
      else if dentry == parent
      then (names, true)
      else if room == 0
      then (names', false)
      else up

  module _ (fuel room dentry mnt : ℕ) (names : List (List ℕ)) where
    pub climb_root :
        at_root root_dentry root_vfsmount dentry mnt ≡ true
        → climb (suc fuel) room dentry mnt names ≡ (names, true)
    unfolding climb
    climb_root e = rw e

    module _ (low : at_root root_dentry root_vfsmount dentry mnt ≡ false) where
      pub climb_mounted :
          at_mount_root kernel dentry mnt ≡ true
          → climb (suc fuel) room dentry mnt names
            ≡ climb fuel room (kernel.mount mnt).mnt_mountpoint (kernel.mount mnt).mnt_parent names
      unfolding climb
      climb_mounted e = rw (low, e)

      module _ (inside : at_mount_root kernel dentry mnt ≡ false) where
        pub climb_top :
            dentry == (kernel.dentry dentry).d_parent ≡ true
            → climb (suc fuel) room dentry mnt names ≡ (names, true)
        unfolding climb
        climb_top e = rw (low, inside, e)

        module _ (under : dentry == (kernel.dentry dentry).d_parent ≡ false) where
          pub climb_last :
              room == 0 ≡ true
              → climb (suc fuel) room dentry mnt names ≡ (name_of kernel dentry ∷ names, false)
          unfolding climb
          climb_last e = rw (low, inside, under, e)

          pub climb_below :
              room == 0 ≡ false
              → climb (suc fuel) room dentry mnt names
                ≡ climb fuel
                    (room - 1)
                    (kernel.dentry dentry).d_parent
                    mnt
                    (name_of kernel dentry ∷ names)
          unfolding climb
          climb_below e = rw (low, inside, under, e)

  -- The path from the root to a dentry: its names, and the steps up to the root.
  pub data Resolves : ℕ → ℕ → List (List ℕ) → ℕ → Type 0 where
    root :
        {dentry mnt : ℕ}
        → at_root root_dentry root_vfsmount dentry mnt ≡ true
        → Resolves dentry mnt [] 1
    mounted :
        {dentry mnt steps : ℕ} {names : List (List ℕ)}
        → at_root root_dentry root_vfsmount dentry mnt ≡ false
        → at_mount_root kernel dentry mnt ≡ true
        → Resolves (kernel.mount mnt).mnt_mountpoint (kernel.mount mnt).mnt_parent names steps
        → Resolves dentry mnt names (suc steps)
    top :
        {dentry mnt : ℕ}
        → at_root root_dentry root_vfsmount dentry mnt ≡ false
        → at_mount_root kernel dentry mnt ≡ false
        → dentry ≡ (kernel.dentry dentry).d_parent
        → Resolves dentry mnt [] 1
    below :
        {dentry mnt steps : ℕ} {names : List (List ℕ)}
        → at_root root_dentry root_vfsmount dentry mnt ≡ false
        → at_mount_root kernel dentry mnt ≡ false
        → dentry ≢ (kernel.dentry dentry).d_parent
        → Resolves (kernel.dentry dentry).d_parent mnt names steps
        → Resolves dentry mnt (names ++ (name_of kernel dentry ∷ [])) (suc steps)

-- Names with a slash between them.
unfoldable pub join : List (List ℕ) → List ℕ
join [] = []
join (x ∷ []) = x
join (x ∷ y ∷ xs) = x ++ (b'/' ∷ join (y ∷ xs))

unfoldable pub lead : Bool → List ℕ
lead true = b'/' ∷ []
lead false = []

-- A text in a buffer of a path's size, with zeros behind it.
unfoldable pub padded : List ℕ → List ℕ
padded text = take pathfraglen text ++ replicate (pathfraglen - length text) 0

-- What the probe keeps of a path: the components nearest the root, in a buffer of a path's size.
unfoldable pub kept_path : List (List ℕ) × Bool → List ℕ
kept_path (names, is_absolute) = padded (lead is_absolute ++ join (take num_comp names))
