-- ===== src/Fslat/Exit/Fates.antt =====
-- What the end of a call does to the statistics of each prefix, by `try_fslat_exit` of lib.rs.
use ebpf_ldms.Prelude.{
  ℕ, ◌≤◌, ◌<◌, ◌≡◌, ◌≢◌, sym, subst, ◌∙◌, arith, List, some, none, get_elem?, some_injective,
  length, IsU64, ◌^◌,
}
use ebpf_ldms.Bpf.Helpers.{Helpers}
use ebpf_ldms.Bpf.HashMap.{HashMap, LruHashMap}
use ebpf_ldms.Bpf.RingBuf.{RingBuf}
use ebpf_ldms.Bpf.Encoder.{Encoder}
use ebpf_ldms.Fslat.Maps.{FsLatencyStats, EntryRec, PidTgid}
use ebpf_ldms.Fslat.Exit.{ExitTimes, ExitState, ExitResult, leave, try_fslat_exit}
use ebpf_ldms.Fslat.Exit.Spec.{Visits}
use ebpf_ldms.Fslat.Exit.Covers.{Fate, EndsAt, Visits-Covers}
use ebpf_ldms.Fslat.Exit.Whole.{
  IsState, Exits, uncounted, unknown, failing, visited, checked, entered, try_fslat_exit-Exits,
}
use ebpf_ldms.Fslat.Exit.Numbers.{After}

module _ (helpers : Helpers) (h : HashMap ℕ ℕ) (lru : LruHashMap PidTgid EntryRec) (cbor : Encoder)
    (rings : RingBuf 1024) (filpop : List ℕ) (times : ExitTimes) (pid_tgid : PidTgid)
    (ret : ℕ) where
  -- The maps of the end of a call that the entry `e` describes, before and after.
  pub record Finished (e : EntryRec) (s s' : ExitState helpers h lru cbor rings) : Type 0 where
    pub removed : lru.get s'.ptrlist pid_tgid ≡ none
    pub others : (k : PidTgid) → k ≢ pid_tgid → lru.get s'.ptrlist k ≡ lru.get s.ptrlist k
    pub reached : ℕ
    pub fates :
        (i : ℕ) (f : FsLatencyStats)
        → i < reached
        → get_elem? s.stats i ≡ some f
        → (f' : FsLatencyStats) × (get_elem? s'.stats i ≡ some f') × Fate times.now ret e f f'
    pub rest : (i : ℕ) → reached ≤ i → get_elem? s'.stats i ≡ get_elem? s.stats i
    pub stops :
        EndsAt rings cbor filpop times.now ret e 0 8 reached s.stats s.prof.ringbuf_drops
          s'.prof.ringbuf_drops s'.ring

  pub fates_of :
      (s : ExitState helpers h lru cbor rings) (r : ExitResult helpers h lru cbor rings) (n : ℕ)
      (e : EntryRec)
      → get_elem? s.counter 0 ≡ some n
      → lru.get s.ptrlist pid_tgid ≡ some e
      → ret < 2 ^ 63
      → Exits helpers h lru cbor rings filpop times pid_tgid ret s r
      → After helpers h lru cbor rings r (Finished e s)
  unfolding leave
  fates_of s r n e c g pos (uncounted c') = cc
  fates_of s r n e c g pos (unknown c' g') = cc
  fates_of s r n e c g pos (failing c' g' neg) = absurd (omega arith)
  fates_of s r n e c g pos (visited {seq} {e = e'} {t} c' g' pos' v all us) =
      let same : e' ≡ e = some_injective e' e (sym g' ∙ g) in
      let covers = Visits-Covers rings cbor filpop times.now ret e 8 0 _ t (
        subst
          (λ x.
            Visits rings cbor filpop times.now ret x 8 0 (entered helpers h lru cbor rings seq s) t)
          same v) in
      record {
        removed = lru.get-remove_self s.ptrlist pid_tgid;
        others = λ k ne. lru.get-remove_ne s.ptrlist k pid_tgid ne;
        reached = covers.reached;
        fates = λ i f lt at. covers.fates i f (omega arith) lt at;
        rest = covers.rest;
        stops = covers.stops;
      }

  -- On well-formed maps with a counter, with a name of at most 500 bytes and u64 numbers, the end
  -- of a call that did not fail and that has an entry removes the entry and no other. The sample
  -- reaches all of the eight prefixes once and no drop is counted, or it reaches them up to and with
  -- the first one whose window is due and whose message finds no room, and that drop is counted. Of
  -- those that it reaches, what the path does not begin with keeps its statistics, a window of at
  -- most a second gets the sample, and a longer one begins anew at this time; the locks of those
  -- that change are released. Those behind stay as they are.
  pub try_fslat_exit-Finished :
      (s : ExitState helpers h lru cbor rings) (n : ℕ) (e : EntryRec)
      → IsState helpers h lru cbor rings s
      → length filpop ≤ 500
      → IsU64 times.now
      → get_elem? s.counter 0 ≡ some n
      → lru.get s.ptrlist pid_tgid ≡ some e
      → ret < 2 ^ 63
      → After helpers h lru cbor rings
          (try_fslat_exit helpers h lru cbor rings filpop times pid_tgid ret s)
          (Finished e (checked helpers h lru cbor rings times.reset s))
  try_fslat_exit-Finished s n e w short un c g pos =
      fates_of (checked helpers h lru cbor rings times.reset s) _ n e c g pos (
        try_fslat_exit-Exits helpers h lru cbor rings filpop times pid_tgid ret s w short un
          (omega arith))
