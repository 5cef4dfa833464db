-- ===== src/Fslat/Path/Whole.antt =====
-- `partial_d_path` of lib.rs as a whole.
use Prim.Native.Nat.{min}
use ebpf_ldms.Prelude.{
  ℕ, zero, suc, ◌+◌, ◌-◌, ◌%◌, ◌≤◌, ◌<◌, ◌≡◌, refl, sym, ◌∙◌, ap, arith, List, [], ◌∷◌, ◌++◌, Bool,
  true, false, some, get_elem?, lt_of_get_elem?, length, length-take, take, replicate, append_assoc,
  append-nil, ==_iff, length-append, if◌then◌else◌,
}
use ebpf_ldms.Bpf.Helpers.{Helpers}
use ebpf_ldms.Bpf.ModNum.{ModNum}
use ebpf_ldms.Bpf.Kernel.{Kernel, FilePath}
use ebpf_ldms.Fslat.Maps.{PathComponent, PathSlice}
use ebpf_ldms.Fslat.Path.Walking.{WalkState, walk_ctx, mount_of, path_walk_step}
use ebpf_ldms.Fslat.Path.Assembling.{
  AssembleState, assem_ctx, assemble_pathfrag, write_slash, partial_d_path, PathTimes,
}
use ebpf_ldms.Fslat.Path.Spec.{
  climb, join, lead, padded, kept_path, Resolves, root, mounted, top, below, climb_root,
  climb_mounted, climb_top, climb_below, name_of,
}
use ebpf_ldms.Fslat.Path.Slots.{IsRing, Holds}
use ebpf_ldms.Fslat.Path.Climbing.{Found}
use ebpf_ldms.Fslat.Path.Walk.{Agrees, walk-Agrees}
use ebpf_ldms.Fslat.Path.Writing.{write_slash-padded}
use ebpf_ldms.Fslat.Path.Assemble.{Ready, Written, assemble-Written}

-- A buffer of zeros, as it stands before each call.
abbrev pub blank : PathSlice
blank = replicate 32 0

-- What the specification finds from a path, within the limits of the source.
unfoldable pub resolve : Kernel → FilePath → List (List ℕ) × Bool
resolve kernel path =
    let fs = (kernel.fs_struct kernel.current.fs).root in
    climb kernel fs.dentry fs.mnt 64 32 path.dentry (mount_of path.mnt) []

get_elem?-take :
    (n : ℕ) (xs : List (List ℕ)) (j : ℕ) (x : List ℕ)
    → get_elem? (take n xs) j ≡ some x
    → get_elem? xs j ≡ some x
get_elem?-take zero xs j x e = cc
get_elem?-take (suc n) [] j x e = e
get_elem?-take (suc n) (y ∷ xs) zero x e = e
get_elem?-take (suc n) (y ∷ xs) (suc j) x e = get_elem?-take n xs j x e

lead-copied : (b abs : Bool) → b ≡ abs → (if b then 1 else 0) ≡ min 33 (length (lead abs))
unfolding lead
lead-copied b true e = rw e
lead-copied b false e = rw e

padded-nil : padded [] ≡ blank
unfolding padded
padded-nil = refl

lead-pathfrag :
    (helpers : Helpers) (b abs : Bool)
    → b ≡ abs
    → (if b then write_slash helpers blank 0 else blank) ≡ padded (lead abs)
unfolding lead
lead-pathfrag helpers b false e = rw e (sym padded-nil)
lead-pathfrag helpers b true e = rw (e, ← padded-nil) (write_slash-padded helpers [] 0 refl)

module _ (num : ModNum 16) (kernel : Kernel) where
  pub start-Found :
      (path : FilePath) (slots : List PathComponent)
      → IsRing slots
      → Found num kernel (record { ctx = walk_ctx num kernel path; pathbuftmp = slots }) []
  unfolding walk_ctx Holds
  start-Found path slots ring = record {
    ring = ring;
    loop_ctr = refl;
    next = num.value-new 0;
    holds = λ j name h e. cc;
  }

  -- The loop of the walk finds what the specification finds.
  walk-resolve :
      (helpers : Helpers) (path : FilePath) (slots : List PathComponent)
      → IsRing slots
      → Agrees num kernel
          (helpers.bpf_loop
            (WalkState num)
            64
            (path_walk_step num kernel)
            (record { ctx = walk_ctx num kernel path; pathbuftmp = slots }))
          (resolve kernel path)
  unfolding walk_ctx resolve
  walk-resolve helpers path slots ring =
      rw helpers.bpf_loop_lem
        (walk-Agrees num kernel 64 32 0 _ [] (start-Found path slots ring) (omega arith) refl)

  -- The context in which the assembly begins is ready for the names nearest the root.
  assem-Ready :
      (helpers : Helpers) (t : WalkState num) (names : List (List ℕ)) (abs : Bool)
      → Agrees num kernel t (names, abs)
      → Ready num helpers
          (record { ctx = assem_ctx num helpers t.ctx blank; pathbuftmp = t.pathbuftmp })
          0
          (lead abs)
          (take 16 names)
  unfolding assem_ctx lead Holds
  assem-Ready helpers t names abs a = record {
    ring = a.found.ring;
    copied = lead-copied t.ctx.is_absolute abs a.is_absolute;
    pathfrag = lead-pathfrag helpers t.ctx.is_absolute abs a.is_absolute;
    num_components = omega (arith, a.found.loop_ctr, length-take 16 names);
    slots = λ j name e.
        let near : j < 16 =
          omega (arith, lt_of_get_elem? (take 16 names) j name e, length-take 16 names) in
        let (c, at, slot) = a.found.holds j name near (get_elem?-take 16 names j name e) in
        let same : num.value (num.sub (num.sub t.ctx.mod_ctr 1) (0 + j))
            ≡ (length names % 16 + 15 - j) % 16 =
          omega (
            arith,
            num.value-sub (num.sub t.ctx.mod_ctr 1) (0 + j),
            num.value-sub t.ctx.mod_ctr 1,
            a.found.next,
          ) in
        (c, ap (get_elem? t.pathbuftmp) same ∙ at, slot);
  }

  assembled-Written :
      (helpers : Helpers) (t : WalkState num) (r : List (List ℕ) × Bool)
      → Agrees num kernel t r
      → Written num helpers
          (helpers.bpf_loop
            (AssembleState num)
            (min 16 (min 16 t.ctx.loop_ctr))
            (assemble_pathfrag num helpers)
            (record { ctx = assem_ctx num helpers t.ctx blank; pathbuftmp = t.pathbuftmp }))
          (lead r.1 ++ join (take 16 r.0))
  assembled-Written helpers t r a =
      let count : min 16 (min 16 t.ctx.loop_ctr) ≡ length (take 16 r.0) =
        omega (arith, a.found.loop_ctr, length-take 16 r.0) in
      rw (helpers.bpf_loop_lem, count)
        (assemble-Written num helpers (take 16 r.0) 0 _ (lead r.1) (assem-Ready helpers t r.0 r.1 a)
          (omega (arith, length-take 16 r.0)))

  -- From a blank buffer, `partial_d_path` leaves the path in it that is specified: the names
  -- nearest the root, at most 16 of the at most 33 that are found in at most 64 steps, with slashes
  -- between them and a slash before them if the root was reached, cut off at 32 bytes and with
  -- zeros behind. It counts the names found and returns at most 33, and the ring keeps its shape.
  pub partial_d_path-kept_path :
      (helpers : Helpers) (path : FilePath) (slots : List PathComponent) (times : PathTimes)
      → IsRing slots
      → let out = partial_d_path num helpers kernel path blank slots times in
        (out.pathfrag ≡ kept_path (resolve kernel path))
        × (out.walk_iters ≡ length (resolve kernel path).0)
        × (out.walk_iters ≤ 33)
        × (out.ret ≤ 33)
        × IsRing out.pathbuftmp
  unfolding partial_d_path kept_path
  partial_d_path-kept_path helpers path slots times ring =
      let a = walk-resolve helpers path slots ring in
      let w = assembled-Written helpers _ (resolve kernel path) a in
      (w.pathfrag, a.found.loop_ctr, omega (arith, a.found.loop_ctr, a.count), w.copied, w.ring)

Resolves_pos :
    (kernel : Kernel) (rd rv dentry mnt : ℕ) (names : List (List ℕ)) (steps : ℕ)
    → Resolves kernel rd rv dentry mnt names steps
    → 0 < steps
Resolves_pos kernel rd rv dentry mnt names steps (root e) = omega arith
Resolves_pos kernel rd rv dentry mnt names steps (mounted low e r) = omega arith
Resolves_pos kernel rd rv dentry mnt names steps (top low inside e) = omega arith
Resolves_pos kernel rd rv dentry mnt names steps (below low inside ne r) = omega arith

-- The specified climb reaches the root along the path that the kernel describes.
climb-Resolves :
    (kernel : Kernel) (rd rv dentry mnt : ℕ) (names : List (List ℕ)) (steps : ℕ)
    → Resolves kernel rd rv dentry mnt names steps
    → (fuel room : ℕ) (found : List (List ℕ)) → steps ≤ fuel
    → length names ≤ room
    → climb kernel rd rv fuel room dentry mnt found ≡ (names ++ found, true)
climb-Resolves kernel rd rv dentry mnt names steps r zero room found hf hr =
    absurd (omega (arith, Resolves_pos kernel rd rv dentry mnt names steps r))
climb-Resolves kernel rd rv dentry mnt names steps (root e) (suc fuel) room found hf hr =
    climb_root kernel rd rv fuel room dentry mnt found e
climb-Resolves kernel rd rv dentry mnt names steps (mounted low e r) (suc fuel) room found hf hr =
    climb_mounted kernel rd rv fuel room dentry mnt found low e
    ∙ climb-Resolves kernel rd rv _ _ names _ r fuel room found (omega arith) hr
climb-Resolves kernel rd rv dentry mnt names steps (top low inside e) (suc fuel) room found hf hr =
    climb_top kernel rd rv fuel room dentry mnt found low inside ((==_iff _ _).1 e)
climb-Resolves kernel rd rv dentry mnt names steps (below {names = upper} low inside ne r)
      (suc fuel) room found hf hr =
    let last = name_of kernel dentry in
    let size = length-append upper (last ∷ []) in
    climb_below kernel rd rv fuel room dentry mnt found low inside (ground arith)
      (ground (arith, size))
    ∙ (climb-Resolves kernel rd rv _ mnt upper _ r fuel (room - 1) (last ∷ found) (omega arith)
          (omega (arith, size))
        ∙ ap (λ (l : List (List ℕ)). (l, true)) (sym (append_assoc upper (last ∷ []) found)))

-- When the kernel's path to a file has at most 32 names and takes at most 64 steps, with its
-- mounts, `partial_d_path` leaves a slash and its first 16 names with slashes between them in the
-- buffer, cut off at 32 bytes and with zeros behind.
pub partial_d_path-Resolves :
    (num : ModNum 16) (kernel : Kernel) (helpers : Helpers) (path : FilePath)
    (slots : List PathComponent) (times : PathTimes) (names : List (List ℕ)) (steps : ℕ)
    → IsRing slots
    → let fs = (kernel.fs_struct kernel.current.fs).root in
      Resolves kernel fs.dentry fs.mnt path.dentry (mount_of path.mnt) names steps
      → steps ≤ 64
      → length names ≤ 32
      → (partial_d_path num helpers kernel path blank slots times).pathfrag
        ≡ padded (b'/' ∷ join (take 16 names))
unfolding resolve kept_path lead
partial_d_path-Resolves num kernel helpers path slots times names steps ring r hs hn =
    let whole = partial_d_path-kept_path num kernel helpers path slots times ring in
    whole.0
    ∙ ap kept_path (
        climb-Resolves kernel _ _ path.dentry (mount_of path.mnt) names steps r 64 32 [] hs hn
        ∙ ap (λ (l : List (List ℕ)). (l, true)) (append-nil names))
