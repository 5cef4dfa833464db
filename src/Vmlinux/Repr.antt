-- ===== src/Vmlinux/Repr.antt =====
-- `#[repr(C)]`, by which vmlinux.rs lays its structs and unions out: the fields in their order, each
-- at the next multiple of its alignment.
use Prim.Native.String.{String}
use Prim.Native.Nat.{max}
use text.Mathlib.Text.{◌==◌}
use ebpf_ldms.Prelude.{ℕ, ◌+◌, ◌-◌, ◌*◌, ◌/◌, Option, some, none, if◌then◌else◌}

-- A scalar, such as a number or a pointer, is aligned to its size. An array has its length.
infixr 5 ◌⨾◌
infix 6 ◌∶◌
mutual
  pub data CType : Type 0 where
    scalar : ℕ → CType
    array : ℕ → CType → CType
    struct union : Fields → CType

  pub data Fields : Type 0 where
    end : Fields
    ◌⨾◌ : Field → Fields → Fields

  pub data Field : Type 0 where
    ◌∶◌ : String → CType → Field

unfoldable pub round_up : ℕ → ℕ → ℕ
round_up n a = (n + a - 1) / a * a

unfoldable mutual
  unfolding round_up

  pub align_of : CType → ℕ
  align_of (scalar n) = n
  align_of (array n t) = align_of t
  align_of (struct fs) = align_fields fs
  align_of (union fs) = align_fields fs

  pub align_fields : Fields → ℕ
  align_fields end = 1
  align_fields ((x ∶ t) ⨾ fs) = max (align_of t) (align_fields fs)

  pub size_of : CType → ℕ
  size_of (scalar n) = n
  size_of (array n t) = n * size_of t
  size_of (struct fs) = round_up (end_of 0 fs) (align_fields fs)
  size_of (union fs) = round_up (largest fs) (align_fields fs)

  -- Where fields end that begin behind the given number of bytes.
  pub end_of : ℕ → Fields → ℕ
  end_of n end = n
  end_of n ((x ∶ t) ⨾ fs) = end_of (round_up n (align_of t) + size_of t) fs

  pub largest : Fields → ℕ
  largest end = 0
  largest ((x ∶ t) ⨾ fs) = max (size_of t) (largest fs)

-- The offset and the type of a field, among fields that begin behind the given number of bytes.
unfoldable pub place : ℕ → String → Fields → Option (ℕ × CType)
unfolding align_of size_of
place n name end = none
place n name ((x ∶ t) ⨾ fs) =
    let o = round_up n (align_of t) in
    let rest = place (o + size_of t) name fs in if x == name then some (o, t) else rest
