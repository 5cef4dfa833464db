-- ===== src/Fslat/Hist/Buckets.antt =====
-- The buckets of the histograms of lib.rs: which one a value falls into, and how one is counted.
use ebpf_ldms.Prelude.{
  ltb, ltb→lt, Bool-cases, ℕ, zero, suc, ◌+◌, ◌^◌, ◌≤◌, ◌<◌, ◌≡◌, ◌≢◌, refl, arith, some, none,
  add64, IsU64, Option, Option-cases, inl, inr, ◌⊎◌,
}
use ebpf_ldms.Bpf.HashMap.{HashMap}
use ebpf_ldms.Fslat.Hist.{leading_zeros, log2_bucket, hist_increment}

-- A value of `n` bits, not zero, has `n - leading_zeros` significant bits.
leading_zeros_bits :
    (n v : ℕ)
    → 0 < v
    → v < 2 ^ n
    → (k : ℕ) × (leading_zeros n v + suc k ≡ n) × (2 ^ k ≤ v) × (v < 2 ^ suc k)
unfolding leading_zeros
leading_zeros_bits zero v pos small = absurd (omega arith)
leading_zeros_bits (suc n) v pos small = elim (Bool-cases (ltb v (2 ^ n))) [
  | inl below ↦
      let (k, sum, lo, hi) = leading_zeros_bits n v pos (ltb→lt v (2 ^ n) below) in
      (k, rw below (omega arith), lo, hi)
  | inr above ↦ (n, rw above (omega arith), ground arith, small)
]

-- The bucket of a u64 other than zero is the number of its bits: it is at most 64, and the value
-- lies from 2 ^ (bucket - 1) up to, not including, 2 ^ bucket. Zero falls into bucket zero.
pub log2_bucket_bits :
    (v : ℕ)
    → IsU64 v
    → ((v ≡ 0) × (log2_bucket v ≡ 0))
      ⊎ ((k : ℕ) × (log2_bucket v ≡ suc k) × (k < 64) × (2 ^ k ≤ v) × (v < 2 ^ suc k))
unfolding log2_bucket
log2_bucket_bits zero u = inl (refl, refl)
log2_bucket_bits (suc v) u =
    let (k, sum, lo, hi) = leading_zeros_bits 64 (suc v) (omega arith) u in
    inr (k, ground (arith, sum), omega arith, lo, hi)

module _ (h : HashMap ℕ ℕ) where
  -- The count that an increment leaves in its bucket.
  abbrev pub counted : Option ℕ → ℕ
  counted none = 1
  counted (some count) = add64 count 1

  -- An increment adds one to its bucket, modulo 2 ^ 64, where a missing bucket starts from zero,
  -- unless the bucket is missing and the map refuses a new key, when the map stays as it was.
  -- It changes no other bucket.
  hist_increment_lem :
      (hist : h.Map) (bucket : ℕ)
      → let hist' = hist_increment h hist bucket in
        ((h.get hist' bucket ≡ some (counted (h.get hist bucket)))
          ⊎ ((h.get hist bucket ≡ none) × (h.insert hist bucket 1 ≡ none) × (hist' ≡ hist)))
        × ((j : ℕ) → j ≢ bucket → h.get hist' j ≡ h.get hist j)
  unfolding hist_increment
  hist_increment_lem hist bucket = elim (Option-cases (h.get hist bucket)) [
    | inr (c, e) ↦
        rw (e, hist_increment)
          (
            inl (h.get-store_self hist bucket c (add64 c 1) e),
            λ j ne. h.get-store_ne hist j bucket _ ne,
          )
    | inl e ↦ elim (Option-cases (h.insert hist bucket 1)) [
      | inr (hist', f) ↦
          rw (e, f, hist_increment)
            (
              inl (h.get-insert_self hist hist' bucket 1 f),
              λ j ne. h.get-insert_ne hist hist' j bucket 1 f ne,
            )
      | inl f ↦ rw (e, f, hist_increment) (inr (refl, refl, refl), λ j ne. refl)
    ]
  ]
