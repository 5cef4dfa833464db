-- ===== src/Prelude/Functions.antt =====
-- Functions of a number with another value at one number, for what every CPU has of its own.
use Prim.Native.Nat.{ℕ}
use mathlib.Core.Path.{◌≡◌, refl, sym, ◌∙◌, subst}
use mathlib.Core.Logic.{◌≢◌, ◌⊎◌, inl, inr}
use mathlib.Core.Bool.{false≢true}
use ebpf_ldms.Prelude.Tests.{◌==◌, ==_iff, if◌then◌else◌, Bool-cases}

abbrev pub set_at {ℓ} : {A : Type ℓ} → (ℕ → A) → ℕ → A → ℕ → A
set_at f n a m = if m == n then a else f m

pub set_at_self {ℓ} : {A : Type ℓ} (f : ℕ → A) (n : ℕ) (a : A) → set_at f n a n ≡ a
set_at_self f n a = rw ((==_iff n n).1 refl)

pub set_at_ne {ℓ} : {A : Type ℓ} (f : ℕ → A) (n m : ℕ) (a : A) → m ≢ n → set_at f n a m ≡ f m
set_at_ne f n m a ne = elim (Bool-cases (m == n)) [
  | inl same ↦ absurd (ne ((==_iff m n).0 same))
  | inr apart ↦ rw apart
]

pub set_at-cases {ℓ} :
    {A : Type ℓ} (f : ℕ → A) (n m : ℕ) (a : A)
    → ((m ≡ n) × (set_at f n a m ≡ a)) ⊎ ((m ≢ n) × (set_at f n a m ≡ f m))
set_at-cases f n m a = elim (Bool-cases (m == n)) [
  | inl same ↦ inl ((==_iff m n).0 same, rw same)
  | inr apart ↦ inr (λ e. absurd (false≢true (sym apart ∙ (==_iff m n).1 e)), rw apart)
]

pub set_at-all {ℓ ℓ'} :
    {A : Type ℓ} (P : A → Type ℓ') (f : ℕ → A) (n : ℕ) (a : A)
    → ((m : ℕ) → m ≢ n → P (f m))
    → P a
    → (m : ℕ) → P (set_at f n a m)
set_at-all P f n a others here m = elim (set_at-cases f n m a) [
  | inl (same, e) ↦ subst P (sym e) here
  | inr (apart, e) ↦ subst P (sym e) (others m apart)
]
