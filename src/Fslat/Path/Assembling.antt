-- ===== src/Fslat/Path/Assembling.antt =====
-- The assembly of a path from its components: `assemble_pathfrag` and `partial_d_path` of
-- producers/fslatency/vfslatency-common/src/lib.rs.
use Prim.Native.Nat.{min}
use ebpf_ldms.Prelude.{
  ℕ, ◌%◌, ◌^◌, List, [], ◌∷◌, Bool, not, some, none, ltb, if◌then◌else◌, get_elem?, set, add32,
  sub32, sub64,
}
use ebpf_ldms.Bpf.Helpers.{Helpers}
use ebpf_ldms.Bpf.ModNum.{ModNum}
use ebpf_ldms.Bpf.Kernel.{Kernel, FilePath}
use ebpf_ldms.Fslat.Maps.{PathComponent, PathSlice, pathfraglen, num_comp, max_parent_loop}
use ebpf_ldms.Fslat.Path.Walking.{PathWalkCtx, WalkState, path_walk_step, walk_ctx}

-- What `partial_d_path` returns and leaves in the memory that it is handed. `ret` is the u32
-- that the source casts to i32.
pub record PathOutcome : Type 0 where
  pub ret : ℕ
  pub walk_iters : ℕ
  pub walk_ns : ℕ
  pub assembly_ns : ℕ
  pub pathfrag : PathSlice
  pub pathbuftmp : List PathComponent

-- The four readings of `bpf_ktime_get_ns`.
pub record PathTimes : Type 0 where
  pub walk_start : ℕ
  pub walk_end : ℕ
  pub assembly_start : ℕ
  pub assembly_end : ℕ

module _ (helpers : Helpers) where
  -- A write whose result the source ignores: the memory stays when the write is refused.
  unfoldable pub write_slash : PathSlice → ℕ → PathSlice
  write_slash memory offset = elim (helpers.dynptr_write memory offset (b'/' ∷ []) 1) [
    | none ↦ memory
    | some memory' ↦ memory'
  ]

module _ (num : ModNum 16) where
  -- `pathfrag` is the memory behind the dynptr.
  pub record AssembleCtx : Type 0 where
    pub start : num.Num
    pub copied : ℕ
    pub num_components : ℕ
    pub pathfrag : PathSlice
    pub is_absolute : Bool

  pub record AssembleState : Type 0 where
    pub ctx : AssembleCtx
    pub pathbuftmp : List PathComponent

  module _ (helpers : Helpers) where
    unfoldable pub finish_component :
        AssembleState → ℕ → PathComponent → ℕ → PathSlice → AssembleState
    unfolding write_slash
    finish_component s index elem len memory =
        let c = s.ctx in
        let written = min (sub32 pathfraglen c.copied) len in
        let slots =
          set s.pathbuftmp (num.value (num.sub c.start index)) (record elem { len = 0 }) in
        if ltb index (sub32 c.num_components 1)
        then record {
          ctx = record c {
            copied = add32 (add32 c.copied written) 1;
            pathfrag = write_slash helpers memory (add32 c.copied len);
          };
          pathbuftmp = slots;
        }
        else record {
          ctx = record c { copied = add32 c.copied written; pathfrag = memory };
          pathbuftmp = slots;
        }

    unfoldable pub assemble_pathfrag : ℕ → AssembleState → AssembleState × ℕ
    unfolding finish_component
    assemble_pathfrag index s =
        elim (get_elem? s.pathbuftmp (num.value (num.sub s.ctx.start index))) [
          | none ↦ (s, 1)
          | some elem ↦
              let c = s.ctx in
              let len = if ltb pathfraglen elem.len then pathfraglen else elem.len % 2 ^ 32 in
              let remaining = sub32 pathfraglen c.copied in
              if not (helpers.check_bounds_signed c.copied 0 pathfraglen)
              then (s, 1)
              else if not (helpers.check_bounds_signed remaining 0 pathfraglen)
              then (s, 1)
              else elim (helpers.dynptr_write c.pathfrag c.copied elem.pathcomp
                  (min remaining len)) [
                    | none ↦ (s, 1)
                    | some memory ↦ (finish_component s index elem len memory, 0)
                  ]
        ]

    -- The context in which the assembly begins, with the leading slash of an absolute path.
    unfoldable pub assem_ctx : PathWalkCtx num → PathSlice → AssembleCtx
    unfolding write_slash
    assem_ctx walked pathfrag = record {
      start = num.sub walked.mod_ctr 1;
      copied = if walked.is_absolute then 1 else 0;
      num_components = min num_comp walked.loop_ctr;
      pathfrag = if walked.is_absolute then write_slash helpers pathfrag 0 else pathfrag;
      is_absolute = walked.is_absolute;
    }

    module _ (kernel : Kernel) where
      unfoldable pub partial_d_path :
          FilePath → PathSlice → List PathComponent → PathTimes → PathOutcome
      unfolding path_walk_step walk_ctx assemble_pathfrag assem_ctx
      partial_d_path path pathfrag pathbuftmp times =
          let walked =
            helpers.bpf_loop (WalkState num) max_parent_loop (path_walk_step num kernel)
              (record { ctx = walk_ctx num kernel path; pathbuftmp = pathbuftmp }) in
          let begun = assem_ctx walked.ctx pathfrag in
          let assembled =
            helpers.bpf_loop AssembleState (min num_comp begun.num_components) assemble_pathfrag
              (record { ctx = begun; pathbuftmp = walked.pathbuftmp }) in
          record {
            ret = assembled.ctx.copied;
            walk_iters = walked.ctx.loop_ctr;
            walk_ns = sub64 times.walk_end times.walk_start;
            assembly_ns = sub64 times.assembly_end times.assembly_start;
            pathfrag = assembled.ctx.pathfrag;
            pathbuftmp = assembled.pathbuftmp;
          }
