-- ===== src/Fslat/Message/Cbor.antt =====
-- CBOR by RFC 8949, as far as the messages use it: unsigned integers, texts and maps of unknown
-- length. A reader of any argument width, and the bytes that the widest heads give.
use ebpf_ldms.Prelude.{
  ℕ, zero, suc, ◌+◌, ◌*◌, ◌/◌, ◌%◌, ◌≡◌, refl, arith, List, [], ◌∷◌, ◌++◌, true, false, Option,
  some, none, length, length-append, take, drop, ltb, leb, ◌==◌, if◌then◌else◌, ◌&&◌, IsU64,
}
use ebpf_ldms.Fslat.Message.{to_be_bytes}

mutual
  pub data Item : Type 0 where
    uint : ℕ → Item
    text : List ℕ → Item
    pairs : Pairs → Item

  pub data Pairs : Type 0 where
    nil : Pairs
    pair : Item → Item → Pairs → Pairs

-- The bytes of an item, with every argument in eight bytes.
unfoldable mutual
  pub item_bytes : Item → List ℕ
  item_bytes (uint n) = 27 ∷ to_be_bytes 8 n
  item_bytes (text s) = 0x7b ∷ (to_be_bytes 8 (length s) ++ s)
  item_bytes (pairs ps) = 0xbf ∷ (pairs_bytes ps ++ (0xff ∷ []))

  pub pairs_bytes : Pairs → List ℕ
  pairs_bytes nil = []
  pairs_bytes (pair k v ps) = item_bytes k ++ (item_bytes v ++ pairs_bytes ps)

pub pairs_bytes-nil : pairs_bytes nil ≡ []
unfolding pairs_bytes
pairs_bytes-nil = refl

pub pairs_bytes-pair :
    (k v : Item) (ps : Pairs)
    → pairs_bytes (pair k v ps) ≡ item_bytes k ++ (item_bytes v ++ pairs_bytes ps)
unfolding pairs_bytes
pairs_bytes-pair k v ps = refl

pub item_bytes-pairs :
    (ps : Pairs) → item_bytes (pairs ps) ≡ (0xbf ∷ []) ++ (pairs_bytes ps ++ (0xff ∷ []))
unfolding item_bytes
item_bytes-pairs ps = refl

-- The number of those bytes.
abbrev mutual
  pub item_size : Item → ℕ
  item_size (uint n) = 9
  item_size (text s) = 9 + length s
  item_size (pairs ps) = 2 + pairs_size ps

  pub pairs_size : Pairs → ℕ
  pairs_size nil = 0
  pairs_size (pair k v ps) = item_size k + item_size v + pairs_size ps

mutual
  unfolding item_bytes to_be_bytes

  length-item : (i : Item) → length (item_bytes i) ≡ item_size i
  length-item (uint n) = omega arith
  length-item (text s) = omega (arith, length-append (to_be_bytes 8 (length s)) s)
  length-item (pairs ps) =
      omega (arith, length-append (pairs_bytes ps) (0xff ∷ []), length-pairs ps)

  length-pairs : (ps : Pairs) → length (pairs_bytes ps) ≡ pairs_size ps
  length-pairs nil = refl
  length-pairs (pair k v ps) = omega (
    arith,
    length-append (item_bytes k) (item_bytes v ++ pairs_bytes ps),
    length-append (item_bytes v) (pairs_bytes ps),
    length-item k,
    length-item v,
    length-pairs ps,
  )

pub length-item_bytes : (i : Item) → length (item_bytes i) ≡ item_size i
length-item_bytes = length-item

-- A number of `n` bytes, the highest first, behind those read before.
unfoldable pub read_be : ℕ → ℕ → List ℕ → Option (ℕ × List ℕ)
read_be zero acc bs = some (acc, bs)
read_be (suc n) acc [] = none
read_be (suc n) acc (b ∷ bs) = read_be n (acc * 256 + b) bs

unfoldable pub read_argument : ℕ → List ℕ → Option (ℕ × List ℕ)
unfolding read_be
read_argument info bs =
    if ltb info 24
    then some (info, bs)
    else if info == 24
    then read_be 1 0 bs
    else if info == 25
    then read_be 2 0 bs
    else if info == 26
    then read_be 4 0 bs
    else if info == 27
    then read_be 8 0 bs
    else none

-- An integer or a text, by its major type.
unfoldable pub read_atom : ℕ → Option (ℕ × List ℕ) → Option (Item × List ℕ)
read_atom major none = none
read_atom major (some (n, rest)) =
    if major == 0
    then some (uint n, rest)
    else if major == 3 && leb n (length rest)
    then some (text (take n rest), drop n rest)
    else none

-- `none` is bytes that are no item, or too little fuel.
unfoldable mutual
  unfolding read_argument read_atom

  pub read_item : ℕ → List ℕ → Option (Item × List ℕ)
  read_item zero bs = none
  read_item (suc f) [] = none
  read_item (suc f) (b ∷ bs) = elim (b == 0xbf) [
    | true ↦ elim (read_pairs f bs) [ none ↦ none | some (ps, rest) ↦ some (pairs ps, rest) ]
    | false ↦ read_atom (b / 32) (read_argument (b % 32) bs)
  ]

  pub read_pairs : ℕ → List ℕ → Option (Pairs × List ℕ)
  read_pairs zero bs = none
  read_pairs (suc f) [] = none
  read_pairs (suc f) (b ∷ bs) = elim (b == 0xff) [
    | true ↦ some (nil, bs)
    | false ↦ elim (read_item f (b ∷ bs)) [
      | none ↦ none
      | some (k, rest) ↦ elim (read_item f rest) [
        | none ↦ none
        | some (v, rest') ↦ elim (read_pairs f rest') [
          | none ↦ none
          | some (ps, rest'') ↦ some (pair k v ps, rest'')
        ]
      ]
    ]
  ]

-- The fuel that reading an item takes.
unfoldable mutual
  pub depth : Item → ℕ
  depth (uint n) = 1
  depth (text s) = 1
  depth (pairs ps) = suc (depth_pairs ps)

  pub depth_pairs : Pairs → ℕ
  depth_pairs nil = 1
  depth_pairs (pair k v ps) = suc (depth k + depth v + depth_pairs ps)

-- Every number and every length is a u64.
abbrev mutual
  pub IsItem : Item → Type 0
  IsItem (uint n) = IsU64 n
  IsItem (text s) = IsU64 (length s)
  IsItem (pairs ps) = IsPairs ps

  pub IsPairs : Pairs → Type 0
  IsPairs nil = Unit {0}
  IsPairs (pair k v ps) = IsItem k × IsItem v × IsPairs ps
