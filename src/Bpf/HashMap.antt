-- ===== src/Bpf/HashMap.antt =====
-- The BPF hash maps of aya (`HashMap` and `LruHashMap`), as the programs call them.
use ebpf_ldms.Prelude.{
  ℕ, ◌≡◌, Bool, ◌&&◌, Bool-cases, ==_iff, inl, inr, subst, ◌≢◌, ◌⊎◌, Option, some, none, arith,
  some_injective, ◌==◌, if◌then◌else◌,
}

-- `get_ptr_mut` gives a pointer to the value: `get` reads through it and `store` writes through it.
-- `insert` replaces the value of a key or adds the key, and `none` is its refusal of a full map.
pub record HashMap (K V : Type 0) : Type 1 where
  pub Map : Type 0
  pub get : Map → K → Option V
  pub store : Map → K → V → Map
  pub insert : Map → K → V → Option Map
  pub remove : Map → K → Map
  pub get-store_self : (m : Map) (k : K) (v w : V) → get m k ≡ some v → get (store m k w) k ≡ some w
  pub get-store_ne : (m : Map) (j k : K) (w : V) → j ≢ k → get (store m k w) j ≡ get m j
  pub get-insert_self : (m m' : Map) (k : K) (v : V) → insert m k v ≡ some m' → get m' k ≡ some v
  pub get-insert_ne :
      (m m' : Map) (j k : K) (v : V) → insert m k v ≡ some m' → j ≢ k → get m' j ≡ get m j
  pub get-remove_self : (m : Map) (k : K) → get (remove m k) k ≡ none
  pub get-remove_ne : (m : Map) (j k : K) → j ≢ k → get (remove m k) j ≡ get m j

-- An LRU map makes room for a new key by dropping entries of other keys.
pub record LruHashMap (K V : Type 0) : Type 1 where
  pub Map : Type 0
  pub get : Map → K → Option V
  pub insert : Map → K → V → Option Map
  pub remove : Map → K → Map
  pub get-insert_self : (m m' : Map) (k : K) (v : V) → insert m k v ≡ some m' → get m' k ≡ some v
  pub get-insert_ne :
      (m m' : Map) (j k : K) (v : V)
      → insert m k v ≡ some m'
      → j ≢ k
      → (get m' j ≡ get m j) ⊎ (get m' j ≡ none)
  pub get-remove_self : (m : Map) (k : K) → get (remove m k) k ≡ none
  pub get-remove_ne : (m : Map) (j k : K) → j ≢ k → get (remove m k) j ≡ get m j

module _ {V : Type 0} where
  abbrev pub update : (ℕ → Option V) → ℕ → Option V → ℕ → Option V
  update m k o j = if j == k then o else m j

  pub update_self : (m : ℕ → Option V) (k : ℕ) (o : Option V) → update m k o k ≡ o
  update_self m k o = ground arith

  pub update_ne : (m : ℕ → Option V) (j k : ℕ) (o : Option V) → j ≢ k → update m k o j ≡ m j
  update_ne m j k o h = ground arith

module _ {V : Type 0} where
  pub insert_self :
      (m m' : ℕ → Option V) (k : ℕ) (v : V) → some (update m k (some v)) ≡ some m' → m' k ≡ some v
  insert_self m m' k v e =
      subst (λ f. f k ≡ some v) (some_injective (update m k (some v)) m' e)
        (update_self m k (some v))

  pub insert_ne :
      (m m' : ℕ → Option V) (j k : ℕ) (v : V)
      → some (update m k (some v)) ≡ some m'
      → j ≢ k
      → m' j ≡ m j
  insert_ne m m' j k v e h =
      subst (λ f. f j ≡ m j) (some_injective (update m k (some v)) m' e)
        (update_ne m j k (some v) h)

-- A map that is never full, as a function of the key.
abbrev pub unbounded : (V : Type 0) → HashMap ℕ V
unbounded V = record {
  Map = ℕ → Option V;
  get = λ m k. m k;
  store = λ m k w. update m k (some w);
  insert = λ m k v. some (update m k (some v));
  remove = λ m k. update m k none;
  get-store_self = λ m k v w h. update_self m k (some w);
  get-store_ne = λ m j k w h. update_ne m j k (some w) h;
  get-insert_self = λ m m' k v e. insert_self m m' k v e;
  get-insert_ne = λ m m' j k v e h. insert_ne m m' j k v e h;
  get-remove_self = λ m k. update_self m k none;
  get-remove_ne = λ m j k h. update_ne m j k none h;
}

abbrev pub same_key : ℕ × ℕ → ℕ × ℕ → Bool
same_key (a, b) (c, d) = a == c && b == d

module _ {V : Type 0} where
  abbrev pub update_pair : (ℕ × ℕ → Option V) → ℕ × ℕ → Option V → ℕ × ℕ → Option V
  update_pair m k o j = if same_key j k then o else m j

  pub update_pair_self : (m : ℕ × ℕ → Option V) (k : ℕ × ℕ) (o : Option V) → update_pair m k o k ≡ o
  update_pair_self m (a, b) o = ground arith

  pub update_pair_ne :
      (m : ℕ × ℕ → Option V) (j k : ℕ × ℕ) (o : Option V) → j ≢ k → update_pair m k o j ≡ m j
  update_pair_ne m (a, b) (c, d) o h = elim (Bool-cases (a == c)) [
    | inr e ↦ rw e
    | inl e ↦ elim (Bool-cases (b == d)) [
      | inr f ↦ rw (e, f)
      | inl f ↦ absurd (h (rw ((==_iff a c).0 e, (==_iff b d).0 f)))
    ]
  ]

-- A map of pairs that is never full, as a function of the key.
abbrev pub unbounded_lru : (V : Type 0) → LruHashMap (ℕ × ℕ) V
unbounded_lru V = record {
  Map = ℕ × ℕ → Option V;
  get = λ m k. m k;
  insert = λ m k v. some (update_pair m k (some v));
  remove = λ m k. update_pair m k none;
  get-insert_self = λ m m' k v e.
      subst (λ (f : ℕ × ℕ → Option V). f k ≡ some v)
        (some_injective (update_pair m k (some v)) m' e) (update_pair_self m k (some v));
  get-insert_ne = λ m m' j k v e h. inl (
      subst (λ (f : ℕ × ℕ → Option V). f j ≡ m j) (some_injective (update_pair m k (some v)) m' e)
        (update_pair_ne m j k (some v) h));
  get-remove_self = λ m k. update_pair_self m k none;
  get-remove_ne = λ m j k h. update_pair_ne m j k none h;
}
