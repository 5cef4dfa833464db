-- ===== src/Vmlinux/Types/Mounts.antt =====
-- The structures of vmlinux.rs: vfsmount and mount.
-- A structure that bindgen names by its place ends in `ty` and its number.
use ebpf_ldms.Vmlinux.Repr.{CType, end, struct, union, ◌∶◌, ◌⨾◌}
use ebpf_ldms.Vmlinux.Types.Scalars.{c_int, pointer}
use ebpf_ldms.Vmlinux.Types.Dentries.{callback_head, hlist_node, list_head, uapi_u32}

abbrev pub vfsmount : CType
vfsmount = struct (
    "mnt_root" ∶ pointer
    ⨾ "mnt_sb" ∶ pointer
    ⨾ "mnt_flags" ∶ c_int
    ⨾ "mnt_idmap" ∶ pointer
    ⨾ "suse_kabi_padding" ∶ pointer
    ⨾ end)

abbrev pub llist_node : CType
llist_node = struct ("next" ∶ pointer ⨾ end)

abbrev pub mount_ty_1 : CType
mount_ty_1 = union ("mnt_rcu" ∶ callback_head ⨾ "mnt_llist" ∶ llist_node ⨾ end)

abbrev pub mount_ty_2 : CType
mount_ty_2 = union ("mnt_mp_list" ∶ hlist_node ⨾ "mnt_umount" ∶ hlist_node ⨾ end)

abbrev pub hlist_head : CType
hlist_head = struct ("first" ∶ pointer ⨾ end)

abbrev pub mount : CType
mount = struct (
    "mnt_hash" ∶ hlist_node
    ⨾ "mnt_parent" ∶ pointer
    ⨾ "mnt_mountpoint" ∶ pointer
    ⨾ "mnt" ∶ vfsmount
    ⨾ "__bindgen_anon_1" ∶ mount_ty_1
    ⨾ "mnt_pcp" ∶ pointer
    ⨾ "mnt_mounts" ∶ list_head
    ⨾ "mnt_child" ∶ list_head
    ⨾ "mnt_instance" ∶ list_head
    ⨾ "mnt_devname" ∶ pointer
    ⨾ "mnt_list" ∶ list_head
    ⨾ "mnt_expire" ∶ list_head
    ⨾ "mnt_share" ∶ list_head
    ⨾ "mnt_slave_list" ∶ list_head
    ⨾ "mnt_slave" ∶ list_head
    ⨾ "mnt_master" ∶ pointer
    ⨾ "mnt_ns" ∶ pointer
    ⨾ "mnt_mp" ∶ pointer
    ⨾ "__bindgen_anon_2" ∶ mount_ty_2
    ⨾ "mnt_umounting" ∶ list_head
    ⨾ "mnt_fsnotify_marks" ∶ pointer
    ⨾ "mnt_fsnotify_mask" ∶ uapi_u32
    ⨾ "mnt_id" ∶ c_int
    ⨾ "mnt_group_id" ∶ c_int
    ⨾ "mnt_expiry_mark" ∶ c_int
    ⨾ "mnt_pins" ∶ hlist_head
    ⨾ "mnt_stuck_children" ∶ hlist_head
    ⨾ end)
