-- ===== src/Bpf/Helpers.antt =====
-- The kernel's BPF helpers and aya's `check_bounds_signed`, as the programs call them.
use ebpf_ldms.Prelude.{
  ℕ, zero, suc, ◌+◌, ◌≤◌, ◌<◌, ◌≡◌, refl, List, ◌++◌, Bool, true, false, ◌&&◌, Option, some, none,
  ltb, leb, ◌==◌, if◌then◌else◌, length, take, drop, arith,
}

-- Calls of a callback with a state, at the indices from `i` on, until it returns other than 0.
unfoldable pub rounds {ℓ} : {S : Type ℓ} → ℕ → ℕ → (ℕ → S → S × ℕ) → S → S
rounds zero i f s = s
rounds (suc n) i f s =
    let (s', code) = f i s in let rest = rounds n (suc i) f s' in if code == 0 then rest else s'

module _ {ℓ} {S : Type ℓ} (i : ℕ) (f : ℕ → S → S × ℕ) (s : S) where
  pub rounds_none : rounds 0 i f s ≡ s
  unfolding rounds
  rounds_none = refl

module _ {ℓ} {S : Type ℓ} (n i : ℕ) (f : ℕ → S → S × ℕ) (s t : S) where
  pub rounds_next : f i s ≡ (t, 0) → rounds (suc n) i f s ≡ rounds n (suc i) f t
  unfolding rounds
  rounds_next e = rw e

  pub rounds_stop : f i s ≡ (t, 1) → rounds (suc n) i f s ≡ t
  unfolding rounds
  rounds_stop e = rw e

-- A region of memory after `bytes` are written at an offset.
abbrev pub overwrite : List ℕ → ℕ → List ℕ → List ℕ
overwrite memory offset bytes = take offset memory ++ (bytes ++ drop (offset + length bytes) memory)

-- `dynptr_write` writes the first `len` bytes of the source into the memory behind the dynptr;
-- `none` is its negative result. The state of a spin lock tells whether it is held.
pub record Helpers : Type 1 where
  pub bpf_loop : (S : Type 0) → ℕ → (ℕ → S → S × ℕ) → S → S
  pub bpf_loop_lem :
      (S : Type 0) (n : ℕ) (f : ℕ → S → S × ℕ) (s : S) → bpf_loop S n f s ≡ rounds n 0 f s
  pub dynptr_write : List ℕ → ℕ → List ℕ → ℕ → Option (List ℕ)
  pub dynptr_write_fits :
      (memory : List ℕ) (offset : ℕ) (source : List ℕ) (len : ℕ)
      → offset + len ≤ length memory
      → len ≤ length source
      → dynptr_write memory offset source len ≡ some (overwrite memory offset (take len source))
  pub dynptr_write_refused :
      (memory : List ℕ) (offset : ℕ) (source : List ℕ) (len : ℕ)
      → length memory < offset + len
      → dynptr_write memory offset source len ≡ none
  pub check_bounds_signed : ℕ → ℕ → ℕ → Bool
  pub check_bounds_signed_lem :
      (v lower upper : ℕ) → check_bounds_signed v lower upper ≡ (leb lower v && leb v upper)
  pub spin_lock : Bool → Bool
  pub spin_lock_lem : (b : Bool) → spin_lock b ≡ true
  pub spin_unlock : Bool → Bool
  pub spin_unlock_lem : (b : Bool) → spin_unlock b ≡ false

abbrev pub write_within : List ℕ → ℕ → List ℕ → ℕ → Option (List ℕ)
write_within memory offset source len =
    if ltb (length memory) (offset + len)
    then none
    else some (overwrite memory offset (take len source))

pub write_within_fits :
    (memory : List ℕ) (offset : ℕ) (source : List ℕ) (len : ℕ)
    → offset + len ≤ length memory
    → write_within memory offset source len ≡ some (overwrite memory offset (take len source))
write_within_fits memory offset source len h = ground arith

pub write_within_refused :
    (memory : List ℕ) (offset : ℕ) (source : List ℕ) (len : ℕ)
    → length memory < offset + len
    → write_within memory offset source len ≡ none
write_within_refused memory offset source len h = ground arith

-- Helpers that do what the documentation says.
abbrev pub documented : Helpers
documented = record {
  bpf_loop = λ S n f s. rounds n 0 f s;
  bpf_loop_lem = λ S n f s. refl;
  dynptr_write = write_within;
  dynptr_write_fits = λ memory offset source len h _. write_within_fits memory offset source len h;
  dynptr_write_refused = write_within_refused;
  check_bounds_signed = λ v lower upper. leb lower v && leb v upper;
  check_bounds_signed_lem = λ v lower upper. refl;
  spin_lock = λ _. true;
  spin_lock_lem = λ _. refl;
  spin_unlock = λ _. false;
  spin_unlock_lem = λ _. refl;
}
