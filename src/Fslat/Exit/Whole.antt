-- ===== src/Fslat/Exit/Whole.antt =====
-- `try_fslat_exit` of lib.rs on all its branches.
use ebpf_ldms.Prelude.{
  ℕ, ◌^◌, ◌<◌, ◌≤◌, ◌≡◌, arith, inl, inr, List, some, none, get_elem?, length, IsU64, Bool-cases,
  Option-cases, leb→le,
}
use ebpf_ldms.Bpf.Helpers.{Helpers}
use ebpf_ldms.Bpf.HashMap.{HashMap, LruHashMap}
use ebpf_ldms.Bpf.RingBuf.{RingBuf}
use ebpf_ldms.Bpf.Encoder.{Encoder}
use ebpf_ldms.Fslat.Maps.{EntryRec, PidTgid, num_path_prefix, IsPathSlice}
use ebpf_ldms.Fslat.Hist.{check_prof_reset}
use ebpf_ldms.Fslat.Exit.{
  ExitTimes, ExitState, ExitResult, ok, err, LoopState, leave, is_negative, try_fslat_exit,
}
use ebpf_ldms.Fslat.Exit.Spec.{Visits}
use ebpf_ldms.Fslat.Exit.WellFormed.{AllStats}
use ebpf_ldms.Fslat.Exit.Visits.{visit_from-Visited}

module _ (helpers : Helpers) (h : HashMap ℕ ℕ) (lru : LruHashMap PidTgid EntryRec) (cbor : Encoder)
    (rings : RingBuf 1024) where
  -- The maps after `check_prof_reset`, and what the loop begins with.
  abbrev pub checked : ℕ → ExitState helpers h lru cbor rings → ExitState helpers h lru cbor rings
  checked time s = record s { prof = check_prof_reset h time s.prof }

  abbrev pub entered : ℕ → ExitState helpers h lru cbor rings → LoopState rings
  entered seq s = record { seq = seq; stats = s.stats; ring = s.ring; drops = s.prof.ringbuf_drops }

  -- The maps hold values of the sizes that their types say.
  pub record IsState (s : ExitState helpers h lru cbor rings) : Type 0 where
    pub seq : (n : ℕ) → get_elem? s.counter 0 ≡ some n → IsU64 n
    pub stats : AllStats s.stats
    pub paths : (k : PidTgid) (e : EntryRec) → lru.get s.ptrlist k ≡ some e → IsPathSlice e.path

  module _ (filpop : List ℕ) (times : ExitTimes) (pid_tgid : PidTgid) (ret : ℕ) where
    -- The outcomes of the end of a call, from the maps after `check_prof_reset`.
    pub data Exits (s : ExitState helpers h lru cbor rings)
        : ExitResult helpers h lru cbor rings → Type 0 where
      uncounted : get_elem? s.counter 0 ≡ none → Exits s (err s)
      unknown :
          {seq : ℕ}
          → get_elem? s.counter 0 ≡ some seq
          → lru.get s.ptrlist pid_tgid ≡ none
          → Exits s (ok s)
      failing :
          {seq : ℕ} {e : EntryRec}
          → get_elem? s.counter 0 ≡ some seq
          → lru.get s.ptrlist pid_tgid ≡ some e
          → 2 ^ 63 ≤ ret
          → Exits s (err (record s { ptrlist = lru.remove s.ptrlist pid_tgid }))
      visited :
          {seq : ℕ} {e : EntryRec} {t : LoopState rings}
          → get_elem? s.counter 0 ≡ some seq
          → lru.get s.ptrlist pid_tgid ≡ some e
          → ret < 2 ^ 63
          → Visits rings cbor filpop times.now ret e num_path_prefix 0 (entered seq s) t
          → AllStats t.stats
          → IsU64 t.seq
          → Exits s (ok (leave helpers h lru cbor rings times pid_tgid s t))

    -- On well-formed maps, with a name of at most 500 bytes and u64 numbers, the end of a call
    -- never panics and never unwraps an error. Without the counter it fails, and without an entry
    -- of the calling thread it does nothing more than the reset of the profile. A failed call only
    -- loses its entry. For any other call the prefixes are visited as specified, from the number in
    -- the counter on; then the entry is removed, the number of the next message is stored, and the
    -- duration is counted.
    pub try_fslat_exit-Exits :
        (s : ExitState helpers h lru cbor rings)
        → IsState s
        → length filpop ≤ 500
        → IsU64 times.now
        → IsU64 ret
        → Exits
            (checked times.reset s)
            (try_fslat_exit helpers h lru cbor rings filpop times pid_tgid ret s)
    unfolding try_fslat_exit
    try_fslat_exit-Exits s w short un ur = elim (Option-cases (get_elem? s.counter 0)) [
      | inl c ↦ rw (try_fslat_exit, c) (uncounted c)
      | inr (seq, c) ↦ elim (Option-cases (lru.get s.ptrlist pid_tgid)) [
        | inl g ↦ rw (try_fslat_exit, c, g) (unknown c g)
        | inr (e, g) ↦ elim (Bool-cases (is_negative ret)) [
          | inl neg ↦ rw (try_fslat_exit, c, g, neg) (failing c g (leb→le _ _ neg))
          | inr pos ↦
              let (t, ends, visits, all, us) =
                visit_from-Visited rings helpers cbor filpop times.now ret e short un ur
                  (w.paths pid_tgid e g) 8 0 (entered seq (checked times.reset s)) w.stats
                  (w.seq seq c) in
              elim ends [
                | inl r ↦
                    rw (try_fslat_exit, c, g, pos, r) (visited c g (ground arith) visits all us)
                | inr r ↦
                    rw (try_fslat_exit, c, g, pos, r) (visited c g (ground arith) visits all us)
              ]
        ]
      ]
    ]
