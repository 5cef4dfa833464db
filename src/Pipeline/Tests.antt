-- ===== src/Pipeline/Tests.antt =====
-- The crates as functions on items, and a read of a file up to the JSON value of its window.
use ebpf_ldms.Prelude.{
  ℕ, ◌≡◌, refl, sym, ◌∙◌, inl, inr, Option-cases, Bool-cases, some_injective, List, [], ◌∷◌, true,
  false, Option, some, none, if◌then◌else◌, codes, ap, map,
}
use ebpf_ldms.Bpf.Helpers.{documented, rounds}
use ebpf_ldms.Fslat.Entry.{try_fslat_entry}
use ebpf_ldms.Fslat.Exit.{try_fslat_exit}
use ebpf_ldms.Fslat.Path.Assembling.{partial_d_path}
use ebpf_ldms.Fslat.Prefix.{starts_with, compare_from}
use ebpf_ldms.Fslat.Message.{
  ringbuf_put, encode_message, ◌>=>◌, str_noncanonical, type_len_noncanonical, to_be_bytes,
  u64_noncanonical,
}
use ebpf_ldms.Fslat.Stats.{take_snapshot, update_stats_locked}
use ebpf_ldms.Fslat.Program.{run_probe}
use ebpf_ldms.Fslat.Tests.PathRuns.{string_at}
use ebpf_ldms.Bpf.ModNum.{remainders}
use ebpf_ldms.Bpf.Encoder.{plain}
use ebpf_ldms.Fslat.Tests.StatsRuns.{hashes}
use ebpf_ldms.Fslat.Tests.CallRuns.{entries, ring}
use ebpf_ldms.Fslat.Tests.ProgramRuns.{
  idle_maps, ended, a_read, read_runs, idle_maps-IsProgram, a_read-AreEvents,
}
use ebpf_ldms.Pipeline.Delivery.{bytes_of, Delivery, Runs-Delivery}
use ebpf_ldms.Fslat.Message.Cbor.{Item, Pairs, uint, text, pairs, nil, pair, read_item}
use ebpf_ldms.Daemon.Ring.{Json, Settings, LoopState, Step, goes_on, ends, panics, serve_items}
use ebpf_ldms.Daemon.Stream.{ldms_msg_publish}
use ebpf_ldms.Daemon.Tests.{recorder, opened}
use ebpf_ldms.Daemon.RingRuns.{
  Value, null, str, num, object, is_null, index, insert, insert_object, index-insert_self,
  index-insert_ne, tries,
}
use ebpf_ldms.Pipeline.Crates.{Crates, all_utf8, text_keys, is_key, find}

pub later_first : Option Item → Value → Value → Value
later_first none v w = w
later_first (some i) v w = v

-- `null` stands for a key that is not there.
unfoldable mutual
  pub json_value : Item → Value
  json_value (uint n) = num n
  json_value (text t) = str t
  json_value (pairs ps) = object (at_key ps)

  at_key : Pairs → List ℕ → Value
  at_key nil name = null
  at_key (pair k v ps) name =
      later_first (find ps name) (at_key ps name) (if is_key k name then json_value v else null)

module _ (k v : Item) (ps : Pairs) (name : List ℕ) where
  at_key-pair :
      at_key (pair k v ps) name
      ≡ later_first (find ps name) (at_key ps name) (if is_key k name then json_value v else null)
  unfolding at_key
  at_key-pair = refl

  find_later : (i : Item) → find ps name ≡ some i → find (pair k v ps) name ≡ some i
  unfolding find
  find_later i later = rw (find, later)

  module _ (last : find ps name ≡ none) where
    find_here : is_key k name ≡ true → find (pair k v ps) name ≡ some v
    unfolding find
    find_here here = rw (find, last, here)

    find_nothing : is_key k name ≡ false → find (pair k v ps) name ≡ none
    unfolding find
    find_nothing other = rw (find, last, other)

at_key_lem :
    (ps : Pairs) (name : List ℕ) (i : Item) → find ps name ≡ some i → at_key ps name ≡ json_value i
unfolding find later_first
at_key_lem nil name i e = cc
at_key_lem (pair k v ps) name i e = elim (Option-cases (find ps name)) [
  | inr (j, later) ↦
      let same : j ≡ i = some_injective j i (sym (find_later k v ps name j later) ∙ e) in
      rw (at_key-pair k v ps name, later) (at_key_lem ps name i (later ∙ ap some same))
  | inl last ↦ elim (Bool-cases (is_key k name)) [
    | inl here ↦
        let same : v ≡ i = some_injective v i (sym (find_here k v ps name last here) ∙ e) in
        rw (at_key-pair k v ps name, last, here) (ap json_value same)
    | inr other ↦ let gone = find_nothing k v ps name last other in cc
  ]
]

pub from_bytes : List ℕ → Option Item
unfolding all_utf8
from_bytes bytes = elim (read_item 64 bytes) [
  | none ↦ none
  | some (i, rest) ↦ if all_utf8 i then some i else none
]

abbrev pub parsed : Json
parsed = record {
  Cbor = Item;
  Value = Value;
  Float = ℕ;
  from_reader = from_bytes;
  to_value = λ i. if text_keys i then some (json_value i) else none;
  to_string = λ v. some (codes "{}");
  is_null = is_null;
  index = index;
  as_str = λ v. elim v [ str s ↦ some s | _ ↦ none ];
  as_u64 = λ v. elim v [ num n ↦ some n | _ ↦ none ];
  string = str;
  float = num;
  insert = insert;
  remove = λ v k. insert v k null;
  insert_object = insert_object;
  remove_object = λ v j k e. insert_object v null j k e;
  index-insert_self = index-insert_self;
  index-insert_ne = index-insert_ne;
  index-remove_self = λ v v' k e. ap is_null (index-insert_self v v' null k e);
  index-remove_ne = λ v v' j k e ne. index-insert_ne v v' null j k e ne;
}

parsed-reads :
    (bytes rest : List ℕ) (i : Item)
    → read_item 64 bytes ≡ some (i, rest)
    → all_utf8 i ≡ true
    → text_keys i ≡ true
    → (cbor : Item) × (from_bytes bytes ≡ some cbor)
      × ((if text_keys cbor then some (json_value cbor) else none) ≡ some (json_value i))
unfolding from_bytes
parsed-reads bytes rest i e good keys = (i, rw (from_bytes, e, good), rw keys)

parsed-refuses :
    (bytes rest : List ℕ) (i : Item)
    → read_item 64 bytes ≡ some (i, rest)
    → all_utf8 i ≡ false
    → from_bytes bytes ≡ none
unfolding from_bytes
parsed-refuses bytes rest i e bad = rw (from_bytes, e, bad)

pub crates : Crates parsed
unfolding json_value from_bytes
crates = record {
  value_of = json_value;
  reads = parsed-reads;
  refuses = parsed-refuses;
  number = λ n u. refl;
  number_there = λ n. refl;
  string = λ t. refl;
  string_there = λ t. refl;
  object = at_key_lem;
}

abbrev settings : Settings parsed
settings = record { msglimit = 1; interval = 1; hostname = codes "node1"; unix_time = λ t. some t }

abbrev started : LoopState parsed tries recorder
started = record { tokens = λ id. none; world = [] }

-- Records that are all handled at the time 5.
abbrev pub at_five : List (List ℕ) → List (List ℕ × ℕ)
at_five records = map (λ bytes. (bytes, 5)) records

pub bytes_of-at_five : (records : List (List ℕ)) → bytes_of (at_five records) ≡ records
bytes_of-at_five [] = refl
bytes_of-at_five (bytes ∷ records) = ap (λ l. bytes ∷ l) (bytes_of-at_five records)

Runs-Delivery_example :
    let items = at_five ended.ring in
    Delivery parsed crates tries recorder settings opened idle_maps.stats 41 items started
      (serve_items parsed tries recorder settings opened items started)
Runs-Delivery_example =
    Runs-Delivery parsed crates tries recorder settings opened documented hashes entries remainders
      plain ring a_read idle_maps ended 41 (at_five ended.ring) started idle_maps-IsProgram
      a_read-AreEvents read_runs refl (sym (bytes_of-at_five ended.ring))

abbrev published_of : Step parsed tries recorder → List (List ℕ)
published_of (goes_on t) = t.world
published_of (ends t) = t.world
published_of (panics t) = []

-- The window of the read is published.
a_read_published :
    published_of (serve_items parsed tries recorder settings opened (at_five ended.ring) started)
    ≡ codes "{}" ∷ []
unfolding run_probe rounds string_at try_fslat_entry partial_d_path try_fslat_exit starts_with
    compare_from ringbuf_put encode_message ◌>=>◌ str_noncanonical type_len_noncanonical to_be_bytes
    u64_noncanonical take_snapshot update_stats_locked serve_items from_bytes read_item text_keys
    json_value later_first find ldms_msg_publish
a_read_published = refl
