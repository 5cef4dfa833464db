-- ===== src/Fslat/Exit/Delivered.antt =====
-- What `try_fslat_exit` of lib.rs publishes: the window of each prefix that is due.
use ebpf_ldms.Prelude.{ℕ, ◌≡◌, ◌⊎◌, List, ◌∷◌, ◌++◌, some, codes}
use ebpf_ldms.Bpf.Helpers.{Helpers}
use ebpf_ldms.Bpf.HashMap.{HashMap, LruHashMap}
use ebpf_ldms.Bpf.RingBuf.{RingBuf}
use ebpf_ldms.Bpf.Encoder.{Encoder}
use ebpf_ldms.Fslat.Maps.{FsLatencyStats, EntryRec, PidTgid}
use ebpf_ldms.Fslat.Stats.{take_snapshot}
use ebpf_ldms.Fslat.Message.Cbor.{read_item}
use ebpf_ldms.Fslat.Message.Put.{message_item, Sent}
use ebpf_ldms.Fslat.Exit.{LoopState, count_drop, event_at, ExitTimes, ExitState}
use ebpf_ldms.Fslat.Exit.Spec.{sampled}

module _ (rings : RingBuf 1024) (cbor : Encoder) (filpop : List ℕ) (now ret : ℕ)
    (e : EntryRec) where
  -- The ring holds the message of the statistics with the sample of this call, under some number,
  -- behind the records that it held before.
  pub record Delivered (ring ring' : rings.Ring) (f : FsLatencyStats) : Type 0 where
    pub bytes : List ℕ
    pub before : List (List ℕ)
    pub behind : List (List ℕ)
    pub seq : ℕ
    pub rest : List ℕ
    pub records : rings.records ring' ≡ rings.records ring ++ (before ++ (bytes ∷ behind))
    pub reads :
        read_item 64 bytes
        ≡ some (
          message_item (event_at now seq) (take_snapshot (sampled now ret e f)) filpop (codes "ns"),
          rest,
        )

  abbrev pub Published : LoopState rings → LoopState rings → FsLatencyStats → Type 0
  Published s t f = (t.drops ≡ count_drop s.drops) ⊎ Delivered s.ring t.ring f

  -- The message that has just been put behind the others of a ring.
  abbrev Sends : rings.Ring → rings.Ring → ℕ → FsLatencyStats → Type 0
  Sends ring ring' seq f =
      Sent cbor rings ring ring'
        (message_item (event_at now seq) (take_snapshot (sampled now ret e f)) filpop (codes "ns"))

  abbrev Grows : rings.Ring → rings.Ring → Type 0
  Grows ring ring' = (new : List (List ℕ)) × (rings.records ring' ≡ rings.records ring ++ new)

module _ (helpers : Helpers) (h : HashMap ℕ ℕ) (lru : LruHashMap PidTgid EntryRec) (cbor : Encoder)
    (rings : RingBuf 1024) (filpop : List ℕ) (times : ExitTimes) (pid_tgid : PidTgid)
    (ret : ℕ) where
  -- The message of a prefix is in the ring after an exit, or a dropped message is counted.
  abbrev pub Publishes :
      EntryRec
      → FsLatencyStats
      → ExitState helpers h lru cbor rings
      → ExitState helpers h lru cbor rings
      → Type 0
  Publishes e f s s' =
      (s'.prof.ringbuf_drops ≡ count_drop s.prof.ringbuf_drops)
      ⊎ Delivered rings cbor filpop times.now ret e s.ring s'.ring f
