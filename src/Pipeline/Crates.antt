-- ===== src/Pipeline/Crates.antt =====
-- What the crates ciborium and serde_json make of an item of CBOR.
use ebpf_ldms.Prelude.{
  same_text, ℕ, ◌≡◌, List, Bool, true, false, ◌&&◌, Option, some, none, if◌then◌else◌, IsU64,
}
use ebpf_ldms.Fslat.Message.Cbor.{Item, Pairs, uint, text, pairs, nil, pair, read_item}
use ebpf_ldms.Daemon.Ring.{Json}
use ebpf_ldms.Pipeline.Utf8.{is_utf8}

-- Every text in an item is UTF-8.
unfoldable mutual
  unfolding is_utf8

  pub all_utf8 : Item → Bool
  all_utf8 (uint n) = true
  all_utf8 (text t) = is_utf8 t
  all_utf8 (pairs ps) = pairs_utf8 ps

  pub pairs_utf8 : Pairs → Bool
  pairs_utf8 nil = true
  pairs_utf8 (pair k v ps) = all_utf8 k && (all_utf8 v && pairs_utf8 ps)

abbrev pub is_text : Item → Bool
is_text (uint n) = false
is_text (text t) = true
is_text (pairs ps) = false

-- Every key of a map is a text.
unfoldable mutual
  pub text_keys : Item → Bool
  text_keys (uint n) = true
  text_keys (text t) = true
  text_keys (pairs ps) = pairs_text_keys ps

  pub pairs_text_keys : Pairs → Bool
  pairs_text_keys nil = true
  pairs_text_keys (pair k v ps) = is_text k && (text_keys v && pairs_text_keys ps)

unfoldable pub is_key : Item → List ℕ → Bool
unfolding same_text
is_key (uint n) name = false
is_key (text t) name = same_text t name
is_key (pairs ps) name = false

-- The value of a key. Of two equal keys the later counts.
unfoldable pub find : Pairs → List ℕ → Option Item
unfolding is_key
find nil name = none
find (pair k v ps) name = elim (find ps name) [
  | some i ↦ some i
  | none ↦ if is_key k name then some v else none
]

-- `from_reader` reads the item at the start of the bytes, if its texts are UTF-8, and fails if they
-- are not. `to_value` makes a JSON value of it if its keys are texts: numbers of numbers, strings of
-- texts, objects of maps.
pub record Crates (json : Json) : Type 0 where
  pub value_of : Item → json.Value
  pub reads :
      (bytes rest : List ℕ) (i : Item)
      → read_item 64 bytes ≡ some (i, rest)
      → all_utf8 i ≡ true
      → text_keys i ≡ true
      → (cbor : json.Cbor) × (json.from_reader bytes ≡ some cbor)
        × (json.to_value cbor ≡ some (value_of i))
  pub refuses :
      (bytes rest : List ℕ) (i : Item)
      → read_item 64 bytes ≡ some (i, rest)
      → all_utf8 i ≡ false
      → json.from_reader bytes ≡ none
  pub number : (n : ℕ) → IsU64 n → json.as_u64 (value_of (uint n)) ≡ some n
  pub number_there : (n : ℕ) → json.is_null (value_of (uint n)) ≡ false
  pub string : (t : List ℕ) → json.as_str (value_of (text t)) ≡ some t
  pub string_there : (t : List ℕ) → json.is_null (value_of (text t)) ≡ false
  pub object :
      (ps : Pairs) (name : List ℕ) (i : Item)
      → find ps name ≡ some i
      → json.index (value_of (pairs ps)) name ≡ value_of i
