-- ===== src/Fslat/Tests/PathRuns.antt =====
-- The path walk of lib.rs over a small tree: /usr/lib is a mount point, and the file is f in it.
use ebpf_ldms.Prelude.{
  ℕ, zero, suc, ◌+◌, ◌-◌, ◌≤◌, ◌<◌, ◌≡◌, refl, arith, List, [], ◌∷◌, some, get_elem?, ◌==◌,
  if◌then◌else◌, take, length, length-take, replicate,
}
use ebpf_ldms.Bpf.Helpers.{documented, rounds}
use ebpf_ldms.Bpf.ModNum.{remainders}
use ebpf_ldms.Bpf.Kernel.{Kernel, FilePath}
use ebpf_ldms.Fslat.Maps.{PathComponent}
use ebpf_ldms.Fslat.Path.Assembling.{partial_d_path, PathTimes}
use ebpf_ldms.Fslat.Path.Spec.{Resolves, root, mounted, below, join, padded, kept_path}
use ebpf_ldms.Fslat.Path.Slots.{IsRing}
use ebpf_ldms.Fslat.Path.Walking.{WalkState, walk_ctx, path_walk_step}
use ebpf_ldms.Fslat.Path.Stopping.{crossings, Stops, walk_start, path_walk_step-Stops}
use ebpf_ldms.Fslat.Path.Whole.{blank, resolve, partial_d_path-kept_path, partial_d_path-Resolves}

abbrev text_at : ℕ → List ℕ
text_at p =
    if p == 2
    then b'u' ∷ b's' ∷ b'r' ∷ []
    else if p == 3
    then b'l' ∷ b'i' ∷ b'b' ∷ []
    else b'f' ∷ []

unfoldable pub string_at : ℕ → ℕ → List ℕ
string_at p size = take (size - 1) (text_at p)

pub string_at-lt : (p size : ℕ) → 0 < size → length (string_at p size) < size
unfolding string_at
string_at-lt p size h = omega (arith, length-take (size - 1) (text_at p))

-- Dentry 1 is the root, 2 is usr and 3 is lib, on the mount at 100. Dentry 10 is the root of the
-- mount at 200, which is mounted on 3, and 11 is f in it.
abbrev pub tree : Kernel
tree = record {
  dentry = λ p. record {
    d_parent = if p == 11 then 10 else if p == 3 then 2 else if p == 10 then 10 else 1;
    d_name = record { name = p };
  };
  vfsmount = λ p. record { mnt_root = if p == 232 then 10 else 1 };
  mount = λ p. record { mnt_parent = 100; mnt_mountpoint = if p == 200 then 3 else 1 };
  file = λ p. record { f_path = record { mnt = 232; dentry = 11 } };
  fs_struct = λ p. record { root = record { mnt = 132; dentry = 1 } };
  current = record { fs = 0 };
  read_str = string_at;
  read_str-lt = string_at-lt;
}

abbrev file_path : FilePath
file_path = record { mnt = 232; dentry = 11 }

abbrev pub slots : List PathComponent
slots = replicate 16 (record { len = 0; pathcomp = blank })

sizes :
    (n i : ℕ) (c : PathComponent)
    → get_elem? (replicate n (record { len = 0; pathcomp = blank })) i ≡ some c
    → length c.pathcomp ≡ 32
sizes zero i c e = cc
sizes (suc n) zero c e = ground arith
sizes (suc n) (suc i) c e = sizes n i c e

pub slots-IsRing : IsRing slots
slots-IsRing = record { count = refl; sizes = sizes 16 }

abbrev pub times : PathTimes
times = record { walk_start = 1; walk_end = 2; assembly_start = 3; assembly_end = 4 }

abbrev expected : List (List ℕ)
expected = (b'u' ∷ b's' ∷ b'r' ∷ []) ∷ (b'l' ∷ b'i' ∷ b'b' ∷ []) ∷ (b'f' ∷ []) ∷ []

partial_d_path_runs :
    (partial_d_path remainders documented tree file_path blank slots times).pathfrag
    ≡ padded (b'/' ∷ join expected)
unfolding partial_d_path rounds join padded string_at
partial_d_path_runs = refl

partial_d_path-kept_path_example :
    let out = partial_d_path remainders documented tree file_path blank slots times in
    (out.pathfrag ≡ kept_path (resolve tree file_path))
    × (out.walk_iters ≡ length (resolve tree file_path).0)
    × (out.walk_iters ≤ 33)
    × (out.ret ≤ 33)
    × IsRing out.pathbuftmp
partial_d_path-kept_path_example =
    partial_d_path-kept_path remainders tree documented file_path slots times slots-IsRing

file_path-Resolves : Resolves tree 1 132 11 200 expected 5
unfolding string_at
file_path-Resolves =
    below refl refl (λ e. absurd (omega (arith, e)))
      (mounted refl refl (
        below refl refl (λ e. absurd (omega (arith, e)))
          (below refl refl (λ e. absurd (omega (arith, e))) (root refl))))

partial_d_path-Resolves_example :
    (partial_d_path remainders documented tree file_path blank slots times).pathfrag
    ≡ padded (b'/' ∷ join (take 16 expected))
partial_d_path-Resolves_example =
    partial_d_path-Resolves remainders tree documented file_path slots times expected 5 slots-IsRing
      file_path-Resolves (omega arith) (omega arith)

-- Dentries 10 and 11 are the parents of each other, and no root is reached.
abbrev looped : Kernel
looped = record tree {
  dentry = λ p. record { d_parent = if p == 11 then 10 else 11; d_name = record { name = p } };
  vfsmount = λ p. record { mnt_root = 0 };
}

looped-crossings :
    crossings remainders looped 64 0 (walk_start remainders looped file_path slots) ≡ 0
unfolding crossings path_walk_step string_at walk_ctx
looped-crossings = refl

path_walk_step-Stops_example :
    let s = walk_start remainders looped file_path slots in
    (k : ℕ) × (k ≤ 64)
    × Stops remainders looped 0 s k
    × ((extra : ℕ)
        → documented.bpf_loop
            (WalkState remainders)
            (64 + extra)
            (path_walk_step remainders looped)
            s
          ≡ documented.bpf_loop (WalkState remainders) 64 (path_walk_step remainders looped) s)
path_walk_step-Stops_example =
    path_walk_step-Stops remainders looped documented file_path slots slots-IsRing
      (omega (arith, looped-crossings))
