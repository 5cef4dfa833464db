-- ===== src/Fslat/Message.antt =====
-- The message of a window: `ringbuf_put` of producers/fslatency/vfslatency-common/src/lib.rs, over
-- the repository's additions to minicbor, `str_noncanonical` and `u64_noncanonical` of
-- producers/fslatency/minicbor/minicbor/src/encode/encoder.rs.
pub mod Cbor
pub mod Emit
pub mod Put
pub mod RoundTrip
use Prim.Native.Nat.{min, bit_or}
use ebpf_ldms.Prelude.{
  ℕ, zero, suc, ◌/◌, ◌%◌, ◌^◌, List, [], ◌∷◌, Option, some, none, length, take, codes,
}
use ebpf_ldms.Bpf.Encoder.{Encoder}
use ebpf_ldms.Bpf.RingBuf.{RingBuf}
use ebpf_ldms.Fslat.Maps.{EventFields, StatsSnapshot, agg_interval, bufsize, pathfraglen}

-- `to_be_bytes` of an unsigned integer of `n` bytes.
unfoldable pub to_be_bytes : ℕ → ℕ → List ℕ
to_be_bytes zero x = []
to_be_bytes (suc n) x = (x / 256 ^ n % 256) ∷ to_be_bytes n x

-- The major type of a text.
abbrev pub text_type : ℕ
text_type = 0x60

-- One call of an encoder after another. The source unwraps each result unchecked: `none` stands
-- for an error there, whose behaviour is undefined.
infixr 5 ◌>=>◌
unfoldable pub ◌>=>◌ : {E : Type 0} → (E → Option E) → (E → Option E) → E → Option E
◌>=>◌ m n e = elim (m e) [ none ↦ none | some e' ↦ n e' ]

module _ (cbor : Encoder) where
  unfoldable pub type_len_noncanonical : ℕ → ℕ → cbor.Enc → Option cbor.Enc
  type_len_noncanonical t x = cbor.put (bit_or t 27 ∷ []) >=> cbor.put (to_be_bytes 8 x)

  unfoldable pub u64_noncanonical : ℕ → cbor.Enc → Option cbor.Enc
  u64_noncanonical x = cbor.put (27 ∷ []) >=> cbor.put (to_be_bytes 8 x)

  unfoldable pub str_noncanonical : List ℕ → cbor.Enc → Option cbor.Enc
  str_noncanonical x = type_len_noncanonical text_type (length x) >=> cbor.put x

  -- The chain of calls in `ringbuf_put`.
  unfoldable pub encode_message :
      EventFields → StatsSnapshot → List ℕ → List ℕ → cbor.Enc → Option cbor.Enc
  encode_message eventf snapshot filpop unit =
      cbor.begin_map
      >=> str_noncanonical (codes "id")
      >=> str_noncanonical eventf.id
      >=> str_noncanonical (codes "timestamp_monotonic")
      >=> u64_noncanonical eventf.monotonic
      >=> str_noncanonical (codes "opname")
      >=> str_noncanonical filpop
      >=> str_noncanonical (codes "sequence")
      >=> u64_noncanonical eventf.seq
      >=> str_noncanonical (codes "unit")
      >=> str_noncanonical unit
      >=> str_noncanonical (codes "metrics")
      >=> cbor.begin_map
      >=> str_noncanonical (codes "min_latency")
      >=> u64_noncanonical snapshot.min
      >=> str_noncanonical (codes "max_latency")
      >=> u64_noncanonical snapshot.max
      >=> str_noncanonical (codes "total_latency")
      >=> u64_noncanonical snapshot.total_lat
      >=> str_noncanonical (codes "total_bytes")
      >=> u64_noncanonical snapshot.total_bytes
      >=> str_noncanonical (codes "count_samples")
      >=> u64_noncanonical snapshot.count
      >=> str_noncanonical (codes "aggregation_time")
      >=> u64_noncanonical agg_interval
      >=> cbor.end
      >=> str_noncanonical (codes "path_prefix")
      >=> str_noncanonical (take (min snapshot.pathlen pathfraglen) snapshot.path_prefix)
      >=> cbor.end

  module _ (rings : RingBuf 1024) where
    -- `failed` is `Err(1)`, `done` is `Ok(0)` with the record in the ring, and `undefined` is what
    -- follows an unchecked unwrap of an error.
    pub data PutResult : Type 0 where
      failed undefined : PutResult
      done : rings.Ring → PutResult

    unfoldable pub ringbuf_put :
        rings.Ring → EventFields → StatsSnapshot → List ℕ → List ℕ → PutResult
    ringbuf_put ring eventf snapshot filpop unit = elim (rings.reserve ring) [
      | none ↦ failed
      | some dataent ↦ elim (encode_message eventf snapshot filpop unit (cbor.new dataent)) [
        | none ↦ undefined
        | some encoder ↦ done (rings.submit ring (cbor.sink encoder).buffer)
      ]
    ]
