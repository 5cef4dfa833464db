-- ===== src/Fslat/Message/RoundTrip.antt =====
-- What the reader of CBOR makes of the bytes that the programs write.
use ebpf_ldms.Prelude.{
  take-append, drop-append, ℕ, zero, suc, ◌≤◌, ◌≡◌, refl, ap, arith, List, [], ◌∷◌, ◌++◌, some,
  length, length-append, leb, ◌==◌, append_assoc, IsU64, true, false,
}
use ebpf_ldms.Fslat.Message.{to_be_bytes}
use ebpf_ldms.Fslat.Message.Cbor.{
  Item, Pairs, uint, text, pairs, nil, pair, item_bytes, pairs_bytes, read_be, read_atom, read_item,
  read_pairs, depth, depth_pairs, IsItem, IsPairs,
}

read_be-to_be_bytes :
    (x : ℕ) (rest : List ℕ) → IsU64 x → read_be 8 0 (to_be_bytes 8 x ++ rest) ≡ some (x, rest)
unfolding read_be to_be_bytes
read_be-to_be_bytes x rest u = ap (λ (n : ℕ). some (n, rest)) (omega arith)

read_text :
    (f : ℕ) (s rest : List ℕ)
    → IsU64 (length s)
    → read_item (suc f) (item_bytes (text s) ++ rest) ≡ some (text s, rest)
unfolding read_item item_bytes
read_text f s rest u =
    let fits : leb (length s) (length (s ++ rest)) ≡ true = ground (arith, length-append s rest) in
    rw (
      append_assoc (to_be_bytes 8 (length s)) s rest,
      read_be-to_be_bytes (length s) (s ++ rest) u,
      fits,
      take-append s rest,
      drop-append s rest,
      read_atom,
    )

read_uint :
    (f n : ℕ) (rest : List ℕ)
    → IsU64 n
    → read_item (suc f) (item_bytes (uint n) ++ rest) ≡ some (uint n, rest)
unfolding read_item item_bytes
read_uint f n rest u = rw (read_be-to_be_bytes n rest u, read_atom)

-- No item begins with the byte that ends a map.
item_head : (k : Item) → (b : ℕ) × (tail : List ℕ) × (item_bytes k ≡ b ∷ tail) × (b == 0xff ≡ false)
unfolding item_bytes
item_head (uint n) = (27, _, refl, refl)
item_head (text s) = (0x7b, _, refl, refl)
item_head (pairs ps) = (0xbf, _, refl, refl)

read_map :
    (f : ℕ) (ps : Pairs) (rest : List ℕ)
    → read_pairs f (pairs_bytes ps ++ (0xff ∷ rest)) ≡ some (ps, rest)
    → read_item (suc f) (item_bytes (pairs ps) ++ rest) ≡ some (pairs ps, rest)
unfolding read_item item_bytes
read_map f ps rest e = rw (append_assoc (pairs_bytes ps) (0xff ∷ []) rest, e)

read_end :
    (f : ℕ) (rest : List ℕ)
    → read_pairs (suc f) (pairs_bytes nil ++ (0xff ∷ rest)) ≡ some (nil, rest)
unfolding read_pairs pairs_bytes
read_end f rest = refl

read_pair :
    (f : ℕ) (k v : Item) (ps : Pairs) (r1 r2 rest : List ℕ)
    → read_item f (item_bytes k ++ r1) ≡ some (k, r1)
    → read_item f r1 ≡ some (v, r2)
    → read_pairs f r2 ≡ some (ps, rest)
    → read_pairs (suc f) (item_bytes k ++ r1) ≡ some (pair k v ps, rest)
unfolding read_pairs
read_pair f k v ps r1 r2 rest ek ev eps =
    let (b, tail, e, ne) = item_head k in
    let ek' : read_item f (b ∷ (tail ++ r1)) ≡ some (k, r1) = rw e at ek in
    rw (e, ne, ek', ev, eps, read_pairs)

pairs_bytes_split :
    (k v : Item) (ps : Pairs) (rest : List ℕ)
    → pairs_bytes (pair k v ps) ++ rest ≡ item_bytes k ++ (item_bytes v ++ (pairs_bytes ps ++ rest))
unfolding pairs_bytes
pairs_bytes_split k v ps rest = simp append_assoc

mutual
  unfolding depth

  read-item :
      (i : Item) (f : ℕ) (rest : List ℕ)
      → IsItem i
      → depth i ≤ f
      → read_item f (item_bytes i ++ rest) ≡ some (i, rest)
  read-item (uint n) zero rest u h = absurd (omega arith)
  read-item (uint n) (suc f) rest u h = read_uint f n rest u
  read-item (text s) zero rest u h = absurd (omega arith)
  read-item (text s) (suc f) rest u h = read_text f s rest u
  read-item (pairs ps) zero rest u h = absurd (omega arith)
  read-item (pairs ps) (suc f) rest u h = read_map f ps rest (read-pairs ps f rest u (omega arith))

  read-pairs :
      (ps : Pairs) (f : ℕ) (rest : List ℕ)
      → IsPairs ps
      → depth_pairs ps ≤ f
      → read_pairs f (pairs_bytes ps ++ (0xff ∷ rest)) ≡ some (ps, rest)
  read-pairs nil zero rest u h = absurd (omega arith)
  read-pairs nil (suc f) rest u h = read_end f rest
  read-pairs (pair k v ps) zero rest u h = absurd (omega arith)
  read-pairs (pair k v ps) (suc f) rest (uk, uv, ups) h = rw pairs_bytes_split (
      read_pair f k v ps _ _ rest (read-item k f _ uk (omega arith))
        (read-item v f _ uv (omega arith)) (read-pairs ps f rest ups (omega arith)))

-- The reader gets back an item from the bytes with the widest heads, whatever follows them, when
-- all its numbers and lengths are u64 and the fuel is at least the item's depth.
pub read_item-item_bytes :
    (i : Item) (f : ℕ) (rest : List ℕ)
    → IsItem i
    → depth i ≤ f
    → read_item f (item_bytes i ++ rest) ≡ some (i, rest)
read_item-item_bytes = read-item
