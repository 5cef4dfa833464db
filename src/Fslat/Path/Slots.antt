-- ===== src/Fslat/Path/Slots.antt =====
-- The ring PATHBUFTMP of lib.rs: which of its slots hold the names found last.
use ebpf_ldms.Prelude.{
  take-append, sym, subst, ltb, tests, append_assoc, length-set, get_elem?-ge, ℕ, zero, suc, ◌+◌,
  ◌-◌, ◌%◌, ◌<◌, ◌≡◌, refl, ◌∙◌, ap, arith, List, [], ◌∷◌, ◌++◌, some, none, get_elem?,
  get_elem?-set_self, get_elem?-set_ne, set, length, length-append, length-drop, take, drop, ◌≢◌,
  Bool-cases, ◌==◌, inl, inr, ==_iff, some_injective,
}
use ebpf_ldms.Bpf.Helpers.{overwrite}
use ebpf_ldms.Fslat.Maps.{PathComponent}

-- The component holds the name.
pub record IsSlot (c : PathComponent) (name : List ℕ) : Type 0 where
  pub len : c.len ≡ length name
  pub bytes : take (length name) c.pathcomp ≡ name
  pub size : length c.pathcomp ≡ 32
  pub fits : length name < 32

-- The ring has 16 slots, each with a buffer of 32 bytes.
pub record IsRing (slots : List PathComponent) : Type 0 where
  pub count : length slots ≡ 16
  pub sizes : (i : ℕ) (c : PathComponent) → get_elem? slots i ≡ some c → length c.pathcomp ≡ 32

-- The slots behind the next free one hold the last 16 names, the latest first.
unfoldable pub Holds : List PathComponent → ℕ → List (List ℕ) → Type 0
Holds slots next names =
    (j : ℕ) (name : List ℕ)
    → j < 16
    → get_elem? names j ≡ some name
    → (c : PathComponent) × (get_elem? slots ((next + 15 - j) % 16) ≡ some c) × IsSlot c name

-- A buffer of 32 bytes after a name and its NUL are written to its start.
pub overwrite-IsSlot :
    (buffer name : List ℕ)
    → length buffer ≡ 32
    → length name < 32
    → IsSlot (record { len = length name; pathcomp = overwrite buffer 0 (name ++ (0 ∷ [])) }) name
overwrite-IsSlot buffer name hb hn = record {
  len = refl;
  bytes =
      rw (append_assoc name (0 ∷ []) (drop (0 + length (name ++ (0 ∷ []))) buffer))
        (take-append name _);
  size = omega (
    arith,
    length-append (name ++ (0 ∷ [])) (drop (0 + length (name ++ (0 ∷ []))) buffer),
    length-append name (0 ∷ []),
    length-drop (0 + length (name ++ (0 ∷ []))) buffer,
  );
  fits = hn;
}

none-ne-some {ℓ} : {A : Type ℓ} (a : A) → none ≢ some a
none-ne-some a e = cc

pub set-IsRing :
    (slots : List PathComponent) (i : ℕ) (c : PathComponent)
    → IsRing slots
    → length c.pathcomp ≡ 32
    → IsRing (set slots i c)
set-IsRing slots i c ring hc = record {
  count = length-set slots i c ∙ ring.count;
  sizes = λ k d e. elim (Bool-cases (i == k)) [
    | inl same ↦
        let k' : i ≡ k = (==_iff i k).0 same in
        elim (Bool-cases (ltb i 16)) [
          | inl inside ↦
              let d' : c ≡ d = some_injective c d (
                sym (get_elem?-set_self slots i c (omega (tests, ring.count)))
                ∙ (ap (get_elem? (set slots i c)) k' ∙ e)) in
              ap (λ (x : PathComponent). length x.pathcomp) (sym d') ∙ hc
          | inr outside ↦ absurd (
              none-ne-some d (
                sym (
                  get_elem?-ge (set slots i c) k (ground (arith, length-set slots i c, ring.count)))
                ∙ e))
        ]
    | inr other ↦ ring.sizes k d (sym (get_elem?-set_ne slots i k c (ground arith)) ∙ e)
  ];
}

-- A name written to the next free slot is the latest one.
set-Holds_next :
    (slots : List PathComponent) (next : ℕ) (names : List (List ℕ)) (c : PathComponent)
    (name : List ℕ)
    → IsRing slots
    → next < 16
    → Holds slots next names
    → IsSlot c name
    → Holds (set slots next c) ((next + 1) % 16) (name ∷ names)
unfolding Holds
set-Holds_next slots next names c name ring hn holds slot zero x hj e = (
  c,
  ap (get_elem? (set slots next c)) (omega arith)
      ∙ get_elem?-set_self slots next c (omega (arith, ring.count)),
  subst (IsSlot c) (some_injective name x e) slot,
)
set-Holds_next slots next names c name ring hn holds slot (suc j) x hj e =
    let (d, at, held) = holds j x (omega arith) e in
    (
      d,
      ap (get_elem? (set slots next c)) (omega arith)
          ∙ (get_elem?-set_ne slots next ((next + 15 - j) % 16) c (λ same. absurd (omega arith))
              ∙ at),
      held,
    )

pub set-Holds :
    (slots : List PathComponent) (next i k : ℕ) (names : List (List ℕ)) (c : PathComponent)
    (name : List ℕ)
    → IsRing slots
    → next < 16
    → Holds slots next names
    → IsSlot c name
    → i ≡ next
    → k ≡ (next + 1) % 16
    → Holds (set slots i c) k (name ∷ names)
set-Holds slots next i k names c name ring hn holds slot ei ek =
    rw (ei, ek) (set-Holds_next slots next names c name ring hn holds slot)
