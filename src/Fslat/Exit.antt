-- ===== src/Fslat/Exit.antt =====
-- The end of a probed call: `try_fslat_exit` of producers/fslatency/vfslatency-common/src/lib.rs.
-- A word of 64 bits with a sign is the number of its bits.
pub mod Spec
pub mod WellFormed
pub mod Visits
pub mod Whole
pub mod Numbers
pub mod Covers
pub mod Fates
pub mod Prefixes
pub mod Delivered
use ebpf_ldms.Prelude.{
  ℕ, zero, suc, ◌+◌, ◌^◌, List, Bool, true, false, Option, some, none, ltb, leb, if◌then◌else◌,
  get_elem?, set, add64, sub64, codes,
}
use ebpf_ldms.Bpf.Helpers.{Helpers}
use ebpf_ldms.Bpf.HashMap.{HashMap, LruHashMap}
use ebpf_ldms.Bpf.RingBuf.{RingBuf}
use ebpf_ldms.Bpf.Encoder.{Encoder}
use ebpf_ldms.Fslat.Maps.{
  FsLatencyStats, EntryRec, EventFields, StatsSnapshot, PidTgid, agg_interval, num_path_prefix,
}
use ebpf_ldms.Fslat.Stats.{update_stats_locked, clear_stats_locked, take_snapshot}
use ebpf_ldms.Fslat.Hist.{Prof, log2_bucket, hist_increment, check_prof_reset}
use ebpf_ldms.Fslat.Prefix.{starts_with}
use ebpf_ldms.Fslat.Message.{ringbuf_put, failed, undefined, done}

abbrev pub is_negative : ℕ → Bool
is_negative ret = leb (2 ^ 63) ret

-- The readings of the clock: in `check_prof_reset`, at the start and at the end.
pub record ExitTimes : Type 0 where
  pub reset : ℕ
  pub now : ℕ
  pub end : ℕ

-- Both updates of the statistics happen under the lock.
module _ (helpers : Helpers) where
  unfoldable pub under_lock : (FsLatencyStats → FsLatencyStats) → FsLatencyStats → FsLatencyStats
  under_lock f s =
      let t = f (record s { lock = helpers.spin_lock s.lock }) in
      record t { lock = helpers.spin_unlock t.lock }

unfoldable pub count_drop : List ℕ → List ℕ
count_drop drops = elim (get_elem? drops 0) [ none ↦ drops | some n ↦ set drops 0 (add64 n 1) ]

abbrev pub event_at : ℕ → ℕ → EventFields
event_at now seq = record { id = codes "fslat/v2"; monotonic = now; seq = seq }

module _ (rings : RingBuf 1024) where
  -- What the loop over the prefixes works on; `seq` is the number behind `countptr`.
  pub record LoopState : Type 0 where
    pub seq : ℕ
    pub stats : List FsLatencyStats
    pub ring : rings.Ring
    pub drops : List ℕ

  -- A round goes on to the next, or breaks. It panics where an index is out of bounds, and is
  -- undefined where an error is unwrapped unchecked.
  pub data Round : Type 0 where
    next stop : LoopState → Round
    panics undefines : Round

  module _ (helpers : Helpers) (cbor : Encoder) (filpop : List ℕ) (now : ℕ) where
    -- A window of more than a second is published, with the latest sample in it.
    unfoldable pub publish : ℕ → ℕ → ℕ → FsLatencyStats → LoopState → Round
    unfolding count_drop
    publish latency bytes idx fsstat s =
        let locked = record fsstat { lock = helpers.spin_lock fsstat.lock } in
        let updated = update_stats_locked locked latency bytes in
        let snapshot = take_snapshot updated in
        let cleared = clear_stats_locked updated now in
        let stats = set s.stats idx (record cleared { lock = helpers.spin_unlock cleared.lock }) in
        elim (ringbuf_put cbor rings s.ring (event_at now s.seq) snapshot filpop (codes "ns")) [
          | failed ↦ stop (record s { stats = stats; drops = count_drop s.drops })
          | undefined ↦ undefines
          | done ring ↦ next (record s { seq = add64 s.seq 1; stats = stats; ring = ring })
        ]

    unfoldable pub visit : EntryRec → ℕ → ℕ → LoopState → Round
    unfolding publish under_lock
    visit entryrec ret idx s = elim (get_elem? s.stats idx) [
      | none ↦ stop s
      | some fsstat ↦ elim (starts_with fsstat.path_prefix entryrec.path fsstat.pathlen) [
        | none ↦ panics
        | some false ↦ next s
        | some true ↦
            let latency = sub64 now entryrec.timestamp in
            if ltb agg_interval (sub64 now fsstat.lastpublish)
            then publish latency ret idx fsstat s
            else (let updated =
                  under_lock helpers (λ t. update_stats_locked t latency ret) fsstat in
                next (record s { stats = set s.stats idx updated }))
      ]
    ]

    -- `for idx in 0..NUM_PATH_PREFIX`, with the rounds left.
    unfoldable pub visit_from : EntryRec → ℕ → ℕ → ℕ → LoopState → Round
    unfolding visit
    visit_from entryrec ret zero idx s = next s
    visit_from entryrec ret (suc n) idx s = elim (visit entryrec ret idx s) [
      | next t ↦ visit_from entryrec ret n (idx + 1) t
      | stop t ↦ stop t
      | panics ↦ panics
      | undefines ↦ undefines
    ]

module _ (helpers : Helpers) (h : HashMap ℕ ℕ) (lru : LruHashMap PidTgid EntryRec) (cbor : Encoder)
    (rings : RingBuf 1024) where
  -- The maps that the exit of one kind of call works on: `stats` is the map of that kind.
  pub record ExitState : Type 0 where
    pub prof : Prof h
    pub counter : List ℕ
    pub ptrlist : lru.Map
    pub stats : List FsLatencyStats
    pub ring : rings.Ring

  pub data ExitResult : Type 0 where
    ok err : ExitState → ExitResult
    panicked unspecified : ExitResult

  -- The rest of the exit, after the loop.
  unfoldable pub leave : ExitTimes → PidTgid → ExitState → LoopState rings → ExitState
  leave times pid_tgid s t =
      let bucket = log2_bucket (sub64 times.end times.now) in
      record {
        prof = record s.prof {
          exit = hist_increment h s.prof.exit bucket;
          ringbuf_drops = t.drops;
        };
        counter = set s.counter 0 t.seq;
        ptrlist = lru.remove s.ptrlist pid_tgid;
        stats = t.stats;
        ring = t.ring;
      }

  unfoldable pub try_fslat_exit : List ℕ → ExitTimes → PidTgid → ℕ → ExitState → ExitResult
  unfolding visit_from leave
  try_fslat_exit filpop times pid_tgid ret s0 =
      let s = record s0 { prof = check_prof_reset h times.reset s0.prof } in
      elim (get_elem? s.counter 0) [
        | none ↦ err s
        | some seq ↦ elim (lru.get s.ptrlist pid_tgid) [
          | none ↦ ok s
          | some entryrec ↦
              if is_negative ret
              then err (record s { ptrlist = lru.remove s.ptrlist pid_tgid })
              else elim (visit_from rings helpers cbor filpop times.now entryrec ret num_path_prefix
                  0
                  (record {
                    seq = seq;
                    stats = s.stats;
                    ring = s.ring;
                    drops = s.prof.ringbuf_drops;
                  })) [
                    | next t ↦ ok (leave times pid_tgid s t)
                    | stop t ↦ ok (leave times pid_tgid s t)
                    | panics ↦ panicked
                    | undefines ↦ unspecified
                  ]
        ]
      ]
