-- ===== src/Fslat/Path/Memory.antt =====
-- Writes behind the end of a text in a buffer of a path's size.
use Prim.Native.Nat.{min}
use ebpf_ldms.Prelude.{
  take-append, take-append_ge, drop-append_add, ℕ, zero, suc, ◌+◌, ◌-◌, ◌≤◌, ◌≡◌, sym, ◌∙◌, ap,
  arith, List, ◌++◌, take, drop, replicate, length, length-append, length-take, length-replicate,
  take_all, take-append-drop, append_assoc, Bool-cases, leb, inl, inr,
}
use ebpf_ldms.Bpf.Helpers.{overwrite}
use ebpf_ldms.Fslat.Path.Spec.{padded}

drop-replicate : (k n : ℕ) → drop k (replicate {A = ℕ} n 0) ≡ replicate (n - k) 0
drop-replicate zero n = let e : n - 0 ≡ n = omega arith in rw e
drop-replicate (suc k) zero = let e : 0 - suc k ≡ 0 = omega arith in rw e
drop-replicate (suc k) (suc n) =
    let e : suc n - suc k ≡ n - k = omega arith in rw e (drop-replicate k n)

pub length-padded : (text : List ℕ) → length (padded text) ≡ 32
unfolding padded
length-padded text = omega (
  arith,
  length-append (take 32 text) (replicate (32 - length text) 0),
  length-take 32 text,
  length-replicate {A = ℕ} (32 - length text) 0,
)

padded_short :
    (text : List ℕ) → length text ≤ 32 → padded text ≡ text ++ replicate (32 - length text) 0
unfolding padded
padded_short text h = rw (take_all 32 text h)

-- What stands behind 32 bytes is lost.
pub padded-append_long :
    (text more : List ℕ) → 32 ≤ length text → padded (text ++ more) ≡ padded text
unfolding padded
padded-append_long text more h =
    let e : 32 - length (text ++ more) ≡ 0 = omega (arith, length-append text more) in
    let f : 32 - length text ≡ 0 = omega arith in rw (e, f, take-append_ge 32 text more h)

-- Bytes written at the end of a text that leaves room for them are appended to it.
pub overwrite-padded :
    (text bytes : List ℕ)
    → length text + length bytes ≤ 32
    → overwrite (padded text) (length text) bytes ≡ padded (text ++ bytes)
overwrite-padded text bytes h =
    let zeros = replicate {A = ℕ} (32 - length text) 0 in
    let n : 32 - length text - length bytes ≡ 32 - length (text ++ bytes) =
      omega (arith, length-append text bytes) in
    rw
      (
        padded_short text (omega arith),
        padded_short (text ++ bytes) (omega (arith, length-append text bytes)),
      )
      (rw (
        take-append text zeros,
        drop-append_add text zeros (length bytes),
        drop-replicate (length bytes) (32 - length text),
        n,
        append_assoc text bytes (replicate {A = ℕ} (32 - length (text ++ bytes)) 0),
      ))

-- Only the part of a name that has room is written, and no more would be kept.
pub padded-append_take :
    (text name : List ℕ)
    → length text ≤ 32
    → padded (text ++ take (min (32 - length text) (length name)) name) ≡ padded (text ++ name)
padded-append_take text name h =
    let w = min (32 - length text) (length name) in
    elim (Bool-cases (leb (length name) (32 - length text))) [
      | inl fits ↦ ap (λ t. padded (text ++ t)) (take_all w name (ground arith))
      | inr cut ↦
          sym (
            padded-append_long (text ++ take w name) (drop w name)
              (ground (arith, length-append text (take w name), length-take w name)))
          ∙ ap padded (
              append_assoc text (take w name) (drop w name)
              ∙ ap (◌++◌ text) (take-append-drop w name))
    ]
