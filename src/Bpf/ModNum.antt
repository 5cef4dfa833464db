-- ===== src/Bpf/ModNum.antt =====
-- `ModNumC` of the crate bare_metal_modulo: numbers modulo a constant.
use ebpf_ldms.Prelude.{ℕ, ◌+◌, ◌-◌, ◌%◌, ◌<◌, ◌≡◌, refl, arith}

-- `value` is the method `a`.
pub record ModNum (m : ℕ) : Type 1 where
  pub Num : Type 0
  pub new : ℕ → Num
  pub value : Num → ℕ
  pub add : Num → ℕ → Num
  pub sub : Num → ℕ → Num
  pub value-lt : (x : Num) → value x < m
  pub value-new : (n : ℕ) → value (new n) ≡ n % m
  pub value-add : (x : Num) (k : ℕ) → value (add x k) ≡ (value x + k) % m
  pub value-sub : (x : Num) (k : ℕ) → value (sub x k) ≡ (value x + m - k % m) % m

-- The remainders themselves, modulo 16.
abbrev pub remainders : ModNum 16
remainders = record {
  Num = ℕ;
  new = λ n. n;
  value = λ x. x % 16;
  add = λ x k. x % 16 + k;
  sub = λ x k. x % 16 + 16 - k % 16;
  value-lt = λ x. omega arith;
  value-new = λ n. refl;
  value-add = λ x k. refl;
  value-sub = λ x k. refl;
}
