-- ===== src/Fslat/Prefix.antt =====
-- `starts_with` of producers/fslatency/vfslatency-common/src/lib.rs.
use Prim.Native.Nat.{min, max}
use ebpf_ldms.Prelude.{
  ℕ, zero, suc, ◌+◌, ◌≤◌, ◌<◌, ◌≡◌, refl, ◌∙◌, ◌↔◌, arith, List, [], ◌∷◌, Bool, true, false, ◌||◌,
  Option, some, none, ltb, ◌==◌, if◌then◌else◌, get_elem?, length, take, drop, get_elem?-lt,
  Bool-cases, inl, inr, ==_iff,
}
use ebpf_ldms.Fslat.Maps.{pathfraglen}

-- The loop, with the rounds left and the index. `none` is the panic of an index out of bounds.
unfoldable pub compare_from : ℕ → ℕ → List ℕ → List ℕ → Option Bool
compare_from zero i needle haystack = some true
compare_from (suc n) i needle haystack =
    let rest = compare_from n (i + 1) needle haystack in
    elim (get_elem? haystack i) [
      | none ↦ none
      | some a ↦ elim (get_elem? needle i) [
        | none ↦ none
        | some b ↦ if a == b then rest else some false
      ]
    ]

unfoldable pub starts_with : List ℕ → List ℕ → ℕ → Option Bool
starts_with needle haystack len =
    if len == 0 || ltb (length haystack) len
    then some false
    else compare_from (max 1 (min len pathfraglen)) 0 needle haystack

drop-get_elem? : (xs : List ℕ) (i a : ℕ) → get_elem? xs i ≡ some a → drop i xs ≡ a ∷ drop (i + 1) xs
drop-get_elem? [] i a e = cc
drop-get_elem? (x ∷ xs) zero a e = ground arith
drop-get_elem? (x ∷ xs) (suc i) a e = ground (arith, drop-get_elem? xs i a)

-- The answer of a comparison that does not panic.
abbrev pub Decides : Option Bool → Type 0 → Type 0
Decides r P = (b : Bool) × (r ≡ some b) × ((b ≡ true) ↔ P)

compare_heads :
    (a b n : ℕ) (xs ys : List ℕ)
    → a ≡ b
    → (r : Bool) → (r ≡ true) ↔ (take n ys ≡ take n xs)
    → (r ≡ true) ↔ (take (suc n) (b ∷ ys) ≡ take (suc n) (a ∷ xs))
compare_heads a b n xs ys e r iff = (λ f. cc (iff.0 f), λ h. iff.1 (cc))

compare_from-Decides :
    (n i : ℕ) (needle haystack : List ℕ)
    → i + n ≤ length needle
    → i + n ≤ length haystack
    → Decides (compare_from n i needle haystack) (take n (drop i needle) ≡ take n (drop i haystack))
unfolding compare_from
compare_from-Decides zero i needle haystack hn hh = (true, refl, (λ _. refl, λ _. refl))
compare_from-Decides (suc n) i needle haystack hn hh =
    let (a, ea) = get_elem?-lt haystack i (omega arith) in
    let (b, eb) = get_elem?-lt needle i (omega arith) in
    let (r, er, iff) = compare_from-Decides n (i + 1) needle haystack (omega arith) (omega arith) in
    rw (drop-get_elem? haystack i a ea, drop-get_elem? needle i b eb)
      (elim (Bool-cases (a == b)) [
        | inl e ↦
            (r, rw (ea, eb, e, compare_from) er, compare_heads a b n _ _ ((==_iff a b).0 e) r iff)
        | inr e ↦ (false, rw (ea, eb, e, compare_from), ((λ f. cc), λ f. absurd (ground arith)))
      ])

starts_with-compare_from :
    (needle haystack : List ℕ) (len : ℕ)
    → length haystack ≡ pathfraglen
    → 0 < len
    → len ≤ pathfraglen
    → starts_with needle haystack len ≡ compare_from len 0 needle haystack
unfolding starts_with
starts_with-compare_from needle haystack len hh lo hi =
    let m : max 1 (min len pathfraglen) ≡ len = ground arith in
    let t : (len == 0 || ltb 32 len) ≡ false = ground arith in rw (hh, t, m)

-- On a prefix and a path of 32 bytes `starts_with` never panics. It answers true exactly when the
-- length is not zero and at most 32 and the first `len` bytes of the two agree.
pub starts_with-Decides :
    (needle haystack : List ℕ) (len : ℕ)
    → length needle ≡ pathfraglen
    → length haystack ≡ pathfraglen
    → Decides
        (starts_with needle haystack len)
        ((0 < len) × (len ≤ pathfraglen) × (take len needle ≡ take len haystack))
unfolding starts_with
starts_with-Decides needle haystack len hn hh = elim (Bool-cases (len == 0 || ltb 32 len)) [
  | inl e ↦ (false, rw (hh, e, starts_with), (λ f. cc, λ f. absurd (ground arith)))
  | inr e ↦
      let (b, eb, iff) = compare_from-Decides len 0 needle haystack (ground arith) (ground arith) in
      (
        b,
        starts_with-compare_from needle haystack len hh (ground arith) (ground arith) ∙ eb,
        (λ f. (ground arith, ground arith, iff.0 f), λ f. iff.1 f.2),
      )
]
