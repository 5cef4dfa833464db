-- ===== src/Bpf/RingBuf.antt =====
-- The BPF ring buffer of aya, as the programs call it.
use ebpf_ldms.Prelude.{
  ℕ, ◌≡◌, refl, List, [], ◌∷◌, ◌++◌, Option, some, none, arith, length, replicate, length-replicate,
}

-- `reserve` gives the memory of a new record, whatever bytes it holds, or none if there is no room.
-- `records` are the records that a reader has to get, in their order.
pub record RingBuf (size : ℕ) : Type 1 where
  pub Ring : Type 0
  pub records : Ring → List (List ℕ)
  pub reserve : Ring → Option (List ℕ)
  pub submit : Ring → List ℕ → Ring
  pub reserve_size : (r : Ring) (m : List ℕ) → reserve r ≡ some m → length m ≡ size
  pub records-submit : (r : Ring) (m : List ℕ) → records (submit r m) ≡ records r ++ (m ∷ [])

-- A ring with room for one record, which gives out memory full of ones.
abbrev pub reserve_one : (size : ℕ) → List (List ℕ) → Option (List ℕ)
reserve_one size [] = some (replicate size 1)
reserve_one size (m ∷ ms) = none

pub reserve_one_size :
    (size : ℕ) (r : List (List ℕ)) (m : List ℕ) → reserve_one size r ≡ some m → length m ≡ size
reserve_one_size size [] m e = ground (arith, length-replicate {A = ℕ} size 1)
reserve_one_size size (x ∷ r) m e = cc

abbrev pub single : (size : ℕ) → RingBuf size
single size = record {
  Ring = List (List ℕ);
  records = λ r. r;
  reserve = reserve_one size;
  submit = λ r m. r ++ (m ∷ []);
  reserve_size = reserve_one_size size;
  records-submit = λ r m. refl;
}
