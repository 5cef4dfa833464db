-- ===== src/Fslat/Path/Writing.antt =====
-- The writes of names and slashes into the buffer of a path, by lib.rs.
use Prim.Native.Nat.{min}
use ebpf_ldms.Prelude.{
  take-take, tests, ltb→lt, length-take, ℕ, ◌-◌, ◌≤◌, ◌≡◌, sym, ◌∙◌, ap, arith, List, [], ◌∷◌, ◌++◌,
  some, length, ltb, Bool-cases, inl, inr, take,
}
use ebpf_ldms.Bpf.Helpers.{Helpers, overwrite}
use ebpf_ldms.Fslat.Maps.{PathComponent}
use ebpf_ldms.Fslat.Path.Assembling.{write_slash}
use ebpf_ldms.Fslat.Path.Spec.{padded}
use ebpf_ldms.Fslat.Path.Slots.{IsSlot}
use ebpf_ldms.Fslat.Path.Memory.{
  length-padded, padded-append_long, overwrite-padded, padded-append_take,
}

module _ (helpers : Helpers) where
  -- A slash at the end of a text, if it has room.
  pub write_slash-padded :
      (text : List ℕ) (offset : ℕ)
      → offset ≡ length text
      → write_slash helpers (padded text) offset ≡ padded (text ++ (b'/' ∷ []))
  unfolding write_slash
  write_slash-padded text offset e = elim (Bool-cases (ltb (length text) 32)) [
    | inl room ↦
        rw
          (
            e,
            helpers.dynptr_write_fits (padded text) (length text) (b'/' ∷ []) 1
                (omega (tests, length-padded text, ltb→lt _ _ room)) (omega arith),
            write_slash,
          )
          (overwrite-padded text (b'/' ∷ []) (omega (arith, ltb→lt _ _ room)))
    | inr full ↦
        rw
          (
            e,
            helpers.dynptr_write_refused (padded text) (length text) (b'/' ∷ []) 1
                (ground (arith, length-padded text)),
            write_slash,
          )
          (sym (padded-append_long text (b'/' ∷ []) (ground arith)))
  ]

  -- The part of a component that has room.
  pub write_name :
      (text name : List ℕ) (c : PathComponent)
      → length text ≤ 32
      → IsSlot c name
      → helpers.dynptr_write
          (padded text)
          (length text)
          c.pathcomp
          (min (32 - length text) (length name))
        ≡ some (padded (text ++ name))
  write_name text name c h slot =
      let w = min (32 - length text) (length name) in
      let cut : take w c.pathcomp ≡ take w name =
        sym (take-take w (length name) c.pathcomp (omega arith)) ∙ ap (take w) slot.bytes in
      helpers.dynptr_write_fits (padded text) (length text) c.pathcomp w
        (omega (arith, length-padded text)) (omega (arith, slot.size))
      ∙ ap some (
          ap (overwrite (padded text) (length text)) cut
          ∙ (overwrite-padded text (take w name) (omega (arith, length-take w name))
              ∙ padded-append_take text name h))
