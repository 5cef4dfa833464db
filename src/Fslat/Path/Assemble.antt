-- ===== src/Fslat/Path/Assemble.antt =====
-- The assembly of lib.rs writes the path that the specification describes.
use Prim.Native.Nat.{min}
use ebpf_ldms.Prelude.{
  ℕ, suc, ◌+◌, ◌-◌, ◌%◌, ◌^◌, ◌≤◌, ◌<◌, ◌≡◌, ◌≢◌, lt_of_get_elem?, refl, sym, subst, ◌∙◌, ap, arith,
  List, [], ◌∷◌, ◌++◌, true, false, some, get_elem?, get_elem?-set_ne, length, length-append, ltb,
  leb, if◌then◌else◌, Bool-cases, inl, inr, add32, sub32, append-nil, append_assoc,
}
use ebpf_ldms.Bpf.Helpers.{Helpers, rounds, rounds_none, rounds_next, rounds_stop}
use ebpf_ldms.Bpf.ModNum.{ModNum}
use ebpf_ldms.Fslat.Maps.{PathComponent}
use ebpf_ldms.Fslat.Path.Assembling.{AssembleState, finish_component, assemble_pathfrag}
use ebpf_ldms.Fslat.Path.Spec.{join, padded}
use ebpf_ldms.Fslat.Path.Slots.{IsSlot, IsRing, set-IsRing}
use ebpf_ldms.Fslat.Path.Memory.{padded-append_long}
use ebpf_ldms.Fslat.Path.Writing.{write_slash-padded, write_name}

module _ (num : ModNum 16) (helpers : Helpers) where
  -- Before round `i`: what has been written, and the names that are still to be written.
  pub record Ready (s : AssembleState num) (i : ℕ) (text : List ℕ) (rest : List (List ℕ))
      : Type 0 where
    pub ring : IsRing s.pathbuftmp
    pub copied : s.ctx.copied ≡ min 33 (length text)
    pub pathfrag : s.ctx.pathfrag ≡ padded text
    pub num_components : s.ctx.num_components ≡ i + length rest
    pub slots :
        (j : ℕ) (name : List ℕ)
        → get_elem? rest j ≡ some name
        → (c : PathComponent) × (get_elem? s.pathbuftmp (num.value (num.sub s.ctx.start (i + j)))
            ≡ some c)
          × IsSlot c name

  -- After the loop.
  pub record Written (s : AssembleState num) (text : List ℕ) : Type 0 where
    pub ring : IsRing s.pathbuftmp
    pub copied : s.ctx.copied ≤ 33
    pub pathfrag : s.ctx.pathfrag ≡ padded text

  step_long :
      (s : AssembleState num) (i : ℕ) (text name : List ℕ) (more : List (List ℕ))
      → Ready s i text (name ∷ more)
      → 33 ≤ length text
      → assemble_pathfrag num helpers i s ≡ (s, 1)
  unfolding assemble_pathfrag
  step_long s i text name more r h =
      let (c, at, slot) = r.slots 0 name refl in
      let here : get_elem? s.pathbuftmp (num.value (num.sub s.ctx.start i)) ≡ some c =
        ap (λ k. get_elem? s.pathbuftmp (num.value (num.sub s.ctx.start k))) (omega arith) ∙ at in
      let bad : helpers.check_bounds_signed s.ctx.copied 0 32 ≡ false =
        helpers.check_bounds_signed_lem s.ctx.copied 0 32 ∙ ground (arith, r.copied) in
      rw (here, assemble_pathfrag) (rw bad)

  step_short :
      (s : AssembleState num) (i : ℕ) (text name : List ℕ) (more : List (List ℕ))
      → Ready s i text (name ∷ more)
      → length text ≤ 32
      → (c : PathComponent) × IsSlot c name
        × (assemble_pathfrag num helpers i s
            ≡ (finish_component num helpers s i c (length name) (padded (text ++ name)), 0))
  unfolding assemble_pathfrag
  step_short s i text name more r h =
      let (c, at, slot) = r.slots 0 name refl in
      let here : get_elem? s.pathbuftmp (num.value (num.sub s.ctx.start i)) ≡ some c =
        ap (λ k. get_elem? s.pathbuftmp (num.value (num.sub s.ctx.start k))) (omega arith) ∙ at in
      let good : helpers.check_bounds_signed s.ctx.copied 0 32 ≡ true =
        helpers.check_bounds_signed_lem s.ctx.copied 0 32 ∙ ground (arith, r.copied) in
      let good' : helpers.check_bounds_signed (sub32 32 s.ctx.copied) 0 32 ≡ true =
        helpers.check_bounds_signed_lem (sub32 32 s.ctx.copied) 0 32 ∙ ground (arith, r.copied) in
      let len : (if ltb 32 c.len then 32 else c.len % 2 ^ 32) ≡ length name =
        ground (arith, slot.len, slot.fits) in
      let copied : s.ctx.copied ≡ length text = omega (arith, r.copied) in
      let written : helpers.dynptr_write s.ctx.pathfrag s.ctx.copied c.pathcomp
            (min (sub32 32 s.ctx.copied) (length name))
          ≡ some (padded (text ++ name)) =
        written_at (sub32 32 s.ctx.copied) s.ctx.pathfrag s.ctx.copied c r.pathfrag copied
          (omega arith) (write_name helpers text name c h slot) in
      (c, slot, rw (here, good, good', len, written, assemble_pathfrag) (rw len))
    where
      written_at :
          (room : ℕ) (memory : List ℕ) (offset : ℕ) (c : PathComponent)
          → memory ≡ padded text
          → offset ≡ length text
          → room ≡ 32 - length text
          → helpers.dynptr_write
              (padded text)
              (length text)
              c.pathcomp
              (min (32 - length text) (length name))
            ≡ some (padded (text ++ name))
          → helpers.dynptr_write memory offset c.pathcomp (min room (length name))
            ≡ some (padded (text ++ name))
      written_at room memory offset c em eo er w = rw (em, eo, er) w

  finish_last :
      (s : AssembleState num) (i : ℕ) (text name : List ℕ) (c : PathComponent)
      → Ready s i text (name ∷ [])
      → length text ≤ 32
      → i < 16
      → IsSlot c name
      → Written
          (finish_component num helpers s i c (length name) (padded (text ++ name)))
          (text ++ name)
  unfolding finish_component
  finish_last s i text name c r h small slot =
      let last : ltb i (sub32 s.ctx.num_components 1) ≡ false = ground (arith, r.num_components) in
      let ring = set-IsRing s.pathbuftmp (num.value (num.sub s.ctx.start i)) _ r.ring slot.size in
      rw (last, finish_component)
        (record { ring = ring; copied = omega (arith, r.copied, slot.fits); pathfrag = refl })

  -- The slots of later rounds are other ones.
  later_slot :
      (start : num.Num) (i j : ℕ)
      → i + suc j < 16
      → num.value (num.sub start i) ≢ num.value (num.sub start (i + suc j))
  later_slot start i j h e =
      omega (arith, e, num.value-lt start, num.value-sub start i, num.value-sub start (i + suc j))

  finish_more :
      (s : AssembleState num) (i : ℕ) (text name y : List ℕ) (more : List (List ℕ))
      (c : PathComponent)
      → Ready s i text (name ∷ y ∷ more)
      → length text ≤ 32
      → i + length (name ∷ y ∷ more) ≤ 16
      → IsSlot c name
      → Ready
          (finish_component num helpers s i c (length name) (padded (text ++ name)))
          (suc i)
          ((text ++ name) ++ (b'/' ∷ []))
          (y ∷ more)
  unfolding finish_component
  finish_more s i text name y more c r h small slot =
      let inner : ltb i (sub32 s.ctx.num_components 1) ≡ true = ground (arith, r.num_components) in
      let k = num.value (num.sub s.ctx.start i) in
      let ring = set-IsRing s.pathbuftmp k _ r.ring slot.size in
      let at : add32 s.ctx.copied (length name) ≡ length (text ++ name) =
        omega (arith, r.copied, slot.fits, length-append text name) in
      rw (inner, finish_component)
        (record {
          ring = ring;
          copied = omega (
            arith,
            r.copied,
            slot.fits,
            length-append text name,
            length-append (text ++ name) (b'/' ∷ []),
          );
          pathfrag = write_slash-padded helpers (text ++ name) _ at;
          num_components = omega (arith, r.num_components);
          slots = λ j z e.
              let (d, found, held) = r.slots (suc j) z e in
              let inside = lt_of_get_elem? (y ∷ more) j z e in
              (
                d,
                get_elem?-set_ne s.pathbuftmp k (num.value (num.sub s.ctx.start (suc i + j))) _ (
                      subst (λ m. k ≢ num.value (num.sub s.ctx.start m)) (omega arith)
                        (later_slot s.ctx.start i j (omega arith)))
                    ∙ (ap (λ m. get_elem? s.pathbuftmp (num.value (num.sub s.ctx.start m)))
                          (omega arith)
                        ∙ found),
                held,
              );
        })

  join-cons :
      (text name y : List ℕ) (more : List (List ℕ))
      → text ++ join (name ∷ y ∷ more) ≡ ((text ++ name) ++ (b'/' ∷ [])) ++ join (y ∷ more)
  unfolding join
  join-cons text name y more = simp append_assoc

  join-one : (name : List ℕ) → join (name ∷ []) ≡ name
  unfolding join
  join-one name = refl

  assemble_none :
      (i : ℕ) (s : AssembleState num) (text : List ℕ)
      → Ready s i text []
      → Written (rounds 0 i (assemble_pathfrag num helpers) s) (text ++ join [])
  unfolding rounds join
  assemble_none i s text r = record {
    ring = r.ring;
    copied = omega (arith, r.copied);
    pathfrag = rw append-nil r.pathfrag;
  }

  assemble_long :
      (n i : ℕ) (s : AssembleState num) (text name tail : List ℕ) (more : List (List ℕ))
      → Ready s i text (name ∷ more)
      → 33 ≤ length text
      → Written (rounds (suc n) i (assemble_pathfrag num helpers) s) (text ++ tail)
  assemble_long n i s text name tail more r h =
      rw (rounds_stop n i _ s s (step_long s i text name more r h)) (record {
        ring = r.ring;
        copied = omega (arith, r.copied);
        pathfrag = r.pathfrag ∙ sym (padded-append_long text tail (omega arith));
      })

  -- The loop writes the names that are left, with slashes between them, as far as there is room.
  pub assemble-Written :
      (rest : List (List ℕ)) (i : ℕ) (s : AssembleState num) (text : List ℕ)
      → Ready s i text rest
      → i + length rest ≤ 16
      → Written (rounds (length rest) i (assemble_pathfrag num helpers) s) (text ++ join rest)
  assemble-Written [] i s text r h = assemble_none i s text r
  assemble-Written (name ∷ []) i s text r h = elim (Bool-cases (leb (length text) 32)) [
    | inl short ↦
        let (c, slot, e) = step_short s i text name [] r (ground arith) in
        rw (rounds_next 0 i _ s _ e, rounds_none, join-one)
          (finish_last s i text name c r (ground arith) (omega arith) slot)
    | inr long ↦ assemble_long 0 i s text name (join (name ∷ [])) [] r (ground arith)
  ]
  assemble-Written (name ∷ y ∷ more) i s text r h = elim (Bool-cases (leb (length text) 32)) [
    | inl short ↦
        let (c, slot, e) = step_short s i text name (y ∷ more) r (ground arith) in
        rw (rounds_next (suc (length more)) i _ s _ e, join-cons)
          (assemble-Written (y ∷ more) (suc i) _ _
            (finish_more s i text name y more c r (ground arith) h slot) (omega arith))
    | inr long ↦
        assemble_long (suc (length more)) i s text name (join (name ∷ y ∷ more)) (y ∷ more) r
          (ground arith)
  ]
