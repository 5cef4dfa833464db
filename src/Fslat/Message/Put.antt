-- ===== src/Fslat/Message/Put.antt =====
-- What `ringbuf_put` of lib.rs puts into the ring buffer.
use Prim.Native.Nat.{min}
use ebpf_ldms.Prelude.{
  ℕ, ◌+◌, ◌≤◌, ◌≡◌, ◌∙◌, ap, arith, List, [], ◌∷◌, ◌++◌, Option, some, none, length, length-take,
  length-append, length-drop, take, drop, ◌⊎◌, append_assoc, append-nil, codes, Option-cases, inl,
  inr, subst,
}
use ebpf_ldms.Bpf.Encoder.{Encoder}
use ebpf_ldms.Bpf.RingBuf.{RingBuf}
use ebpf_ldms.Fslat.Maps.{EventFields, StatsSnapshot, agg_interval}
use ebpf_ldms.Fslat.Message.{◌>=>◌, encode_message, failed, done, ringbuf_put}
use ebpf_ldms.Fslat.Message.Cbor.{
  Item, Pairs, uint, text, pairs, nil, pair, item_bytes, pairs_bytes-nil, pairs_bytes-pair,
  item_bytes-pairs, length-item_bytes, IsItem, depth, read_item,
}
use ebpf_ldms.Fslat.Message.Emit.{
  Emits, Emits_run, ◌⨾◌, str-Emits, u64-Emits, begin_map-Emits, end-Emits,
}
use ebpf_ldms.Fslat.Message.RoundTrip.{read_item-item_bytes}

abbrev field : List ℕ → Item → Pairs → Pairs
field name value rest = pair (text name) value rest

-- The metrics of a window.
unfoldable pub metrics_item : StatsSnapshot → Item
metrics_item s = pairs (
    field (codes "min_latency") (uint s.min) (
      field (codes "max_latency") (uint s.max) (
        field (codes "total_latency") (uint s.total_lat) (
          field (codes "total_bytes") (uint s.total_bytes) (
            field (codes "count_samples") (uint s.count)
              (field (codes "aggregation_time") (uint agg_interval) nil))))))

-- The message of a window. The README of producers/fslatency shows it as the daemon publishes it,
-- with other fields for the host and the time, and without `aggregation_time`.
unfoldable pub message_item : EventFields → StatsSnapshot → List ℕ → List ℕ → Item
message_item e s filpop unit = pairs (
    field (codes "id") (text e.id) (
      field (codes "timestamp_monotonic") (uint e.monotonic) (
        field (codes "opname") (text filpop) (
          field (codes "sequence") (uint e.seq) (
            field (codes "unit") (text unit) (
              field (codes "metrics") (metrics_item s) (
                field (codes "path_prefix") (text (take (min s.pathlen 32) s.path_prefix))
                  nil)))))))

module _ (cbor : Encoder) where
  infixr 5 ◌then◌
  abbrev ◌then◌ :
      {call next : cbor.Enc → Option cbor.Enc} {bytes more : List ℕ}
      → Emits cbor call bytes
      → Emits cbor next more
      → Emits cbor (call >=> next) (bytes ++ more)
  ◌then◌ = ◌⨾◌ cbor

  -- The chain of calls writes the bytes of the message.
  encode_message-Emits :
      (e : EventFields) (s : StatsSnapshot) (filpop unit : List ℕ)
      → Emits cbor (encode_message cbor e s filpop unit) (item_bytes (message_item e s filpop unit))
  unfolding encode_message message_item metrics_item
  encode_message-Emits e s filpop unit =
      let begin = begin_map-Emits cbor in
      let end = end-Emits cbor in
      let str = str-Emits cbor in
      let u64 = u64-Emits cbor in
      subst (Emits cbor (encode_message cbor e s filpop unit))
        (simp (item_bytes-pairs, pairs_bytes-pair, pairs_bytes-nil, append-nil, append_assoc))
        (begin
          then str _
          then str _
          then str _
          then u64 _
          then str _
          then str _
          then str _
          then u64 _
          then str _
          then str _
          then str _
          then begin
          then str _
          then u64 _
          then str _
          then u64 _
          then str _
          then u64 _
          then str _
          then u64 _
          then str _
          then u64 _
          then str _
          then u64 _
          then end
          then str _
          then str _
          then end)

message_depth :
    (e : EventFields) (s : StatsSnapshot) (filpop unit : List ℕ)
    → depth (message_item e s filpop unit) ≤ 64
unfolding depth message_item metrics_item
message_depth e s filpop unit = omega arith

-- The names of a message leave room for the rest of it.
abbrev pub IsShort : EventFields → List ℕ → List ℕ → Type 0
IsShort e filpop unit = length e.id + length filpop + length unit ≤ 600

message_fits :
    (e : EventFields) (s : StatsSnapshot) (filpop unit : List ℕ)
    → IsShort e filpop unit
    → length (item_bytes (message_item e s filpop unit)) ≤ 1024
unfolding message_item metrics_item
message_fits e s filpop unit h =
    rw length-item_bytes (omega (arith, length-take (min s.pathlen 32) s.path_prefix))

module _ (cbor : Encoder) (rings : RingBuf 1024) where
  -- The record of a message that was put into the ring behind the records before it.
  pub record Sent (ring ring' : rings.Ring) (message : Item) : Type 0 where
    pub bytes : List ℕ
    pub rest : List ℕ
    pub records : rings.records ring' ≡ rings.records ring ++ (bytes ∷ [])
    pub size : length bytes ≡ 1024
    pub reads : read_item 64 bytes ≡ some (message, rest)
    pub words : IsItem message

  -- With names of at most 600 bytes together, and numbers that are u64, `ringbuf_put` fails exactly
  -- where the ring has no room. Otherwise no encoder call fails, and one record of 1024 bytes joins
  -- the ring, from which a reader of CBOR gets back the message.
  pub ringbuf_put-message :
      (ring : rings.Ring) (e : EventFields) (s : StatsSnapshot) (filpop unit : List ℕ)
      → IsShort e filpop unit
      → IsItem (message_item e s filpop unit)
      → let r = ringbuf_put cbor rings ring e s filpop unit in
        ((rings.reserve ring ≡ none) × (r ≡ failed))
        ⊎ ((m : List ℕ) × (rings.reserve ring ≡ some m)
            × (ring' : rings.Ring) × (r ≡ done ring')
            × Sent ring ring' (message_item e s filpop unit))
  unfolding ringbuf_put
  ringbuf_put-message ring e s filpop unit short words = elim (Option-cases (rings.reserve ring)) [
    | inl none' ↦ inl (none', rw (none', ringbuf_put))
    | inr (m, some') ↦
        let message = message_item e s filpop unit in
        let size = rings.reserve_size ring m some' in
        let fits = message_fits e s filpop unit short in
        let bytes = item_bytes message in
        let (enc, run, buffer) =
          Emits_run cbor _ bytes m (encode_message-Emits cbor e s filpop unit) (omega arith) in
        inr (
          m,
          some',
          rings.submit ring (cbor.sink enc).buffer,
          rw (some', run, ringbuf_put),
          record {
            bytes = (cbor.sink enc).buffer;
            rest = drop (length bytes) m;
            records = rings.records-submit ring _;
            size =
                ap length buffer
                ∙ omega (
                  arith,
                  length-append bytes (drop (length bytes) m),
                  length-drop (length bytes) m,
                );
            words = words;
            reads = rw buffer (
                read_item-item_bytes message 64 (drop (length bytes) m) words
                  (message_depth e s filpop unit));
          },
        )
  ]
