-- ===== src/Fslat/Tests/MessageRuns.antt =====
-- A message through `ringbuf_put` of lib.rs, into a ring with room for one record.
use ebpf_ldms.Prelude.{ℕ, ◌≡◌, ◌⊎◌, arith, List, [], ◌∷◌, replicate, some, none, codes}
use ebpf_ldms.Bpf.RingBuf.{RingBuf, single}
use ebpf_ldms.Bpf.Encoder.{plain}
use ebpf_ldms.Fslat.Maps.{EventFields, StatsSnapshot}
use ebpf_ldms.Fslat.Message.{ringbuf_put, failed, done}
use ebpf_ldms.Fslat.Message.Put.{message_item, metrics_item, Sent, ringbuf_put-message}

abbrev window : StatsSnapshot
window = record {
  pathlen = 2;
  path_prefix = b'/' ∷ b'a' ∷ replicate 30 0;
  min = 10;
  max = 30;
  total_lat = 60;
  total_bytes = 4608;
  count = 3;
}

abbrev event : EventFields
event = record { id = codes "fslat/v2"; monotonic = 1000000007; seq = 41 }

abbrev ring : RingBuf 1024
ring = single 1024

ringbuf_put-message_example :
    let message = message_item event window (codes "read") (codes "ns") in
    let r = ringbuf_put plain ring [] event window (codes "read") (codes "ns") in
    ((ring.reserve [] ≡ none) × (r ≡ failed))
    ⊎ ((m : List ℕ) × (ring.reserve [] ≡ some m)
        × (ring' : List (List ℕ)) × (r ≡ done ring')
        × Sent plain ring [] ring' message)
unfolding message_item metrics_item
ringbuf_put-message_example =
    ringbuf_put-message plain ring [] event window (codes "read") (codes "ns") (omega arith)
      (ground arith)
