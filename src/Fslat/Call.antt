-- ===== src/Fslat/Call.antt =====
-- A probed call from its start to its end, through the entry that `try_fslat_entry` leaves for
-- `try_fslat_exit` in the map PTRLIST of producers/fslatency/vfslatency-common/src/maps.rs.
use ebpf_ldms.Prelude.{
  ℕ, ◌^◌, ◌<◌, ◌≤◌, ◌≡◌, sym, subst, some_injective, ◌∙◌, inl, inr, List, some, get_elem?, length,
  IsU64,
}
use ebpf_ldms.Bpf.Helpers.{Helpers}
use ebpf_ldms.Bpf.HashMap.{HashMap, LruHashMap}
use ebpf_ldms.Bpf.RingBuf.{RingBuf}
use ebpf_ldms.Bpf.Encoder.{Encoder}
use ebpf_ldms.Bpf.ModNum.{ModNum}
use ebpf_ldms.Bpf.Kernel.{Kernel}
use ebpf_ldms.Fslat.Maps.{EntryRec, PidTgid}
use ebpf_ldms.Fslat.Entry.{EntryTimes, EntryState, ok, try_fslat_entry}
use ebpf_ldms.Fslat.Entry.Stored.{IsReady, entry_of_call, try_fslat_entry-Entered}
use ebpf_ldms.Fslat.Exit.{ExitTimes, ExitState, try_fslat_exit}
use ebpf_ldms.Fslat.Exit.WellFormed.{AllStats}
use ebpf_ldms.Fslat.Exit.Whole.{checked}
use ebpf_ldms.Fslat.Exit.Numbers.{After}
use ebpf_ldms.Fslat.Exit.Fates.{Finished, try_fslat_exit-Finished}

module _ (helpers : Helpers) (h : HashMap ℕ ℕ) (lru : LruHashMap PidTgid EntryRec) (num : ModNum 16)
    (kernel : Kernel) (cbor : Encoder) (rings : RingBuf 1024) where
  -- The maps in which the call ends, with the entries of its start.
  abbrev pub handed :
      ExitState helpers h lru cbor rings → EntryState h lru → ExitState helpers h lru cbor rings
  handed x s = record x { ptrlist = s.ptrlist }

  -- A call that starts at ready maps whose map of entries takes one more, and that does not fail,
  -- ends with the visits for the entry of its start: its sample is the time since that start, and
  -- its path is the specified path of its file. Each of the eight prefixes meets its fate by that
  -- sample, or each up to and with the first whose window is due and whose message finds no room, and
  -- those behind stay as they are. The maps of the end are well-formed, with a counter, and its name
  -- has at most 500 bytes.
  pub call-Finished :
      (enter : EntryTimes) (leave : ExitTimes) (pid_tgid : PidTgid) (filp ret n : ℕ)
      (filpop : List ℕ) (s : EntryState h lru) (x : ExitState helpers h lru cbor rings)
      (m : lru.Map)
      → IsReady h lru num helpers kernel s
      → lru.insert s.ptrlist pid_tgid (entry_of_call h lru num helpers kernel enter pid_tgid filp)
        ≡ some m
      → AllStats x.stats
      → get_elem? x.counter 0 ≡ some n
      → IsU64 n
      → length filpop ≤ 500
      → IsU64 leave.now
      → ret < 2 ^ 63
      → (s' : EntryState h lru) × (try_fslat_entry h lru num helpers kernel enter pid_tgid filp s
          ≡ ok s')
        × IsReady h lru num helpers kernel s'
        × After helpers h lru cbor rings
            (try_fslat_exit helpers h lru cbor rings filpop leave pid_tgid ret (handed x s'))
            (Finished helpers h lru cbor rings filpop leave pid_tgid ret
              (entry_of_call h lru num helpers kernel enter pid_tgid filp)
              (checked helpers h lru cbor rings leave.reset (handed x s')))
  call-Finished enter leave pid_tgid filp ret n filpop s x m w room all c un short unow pos =
      let (s', runs, entered) =
        try_fslat_entry-Entered h lru num helpers kernel enter pid_tgid filp s w in
      let found : lru.get s'.ptrlist pid_tgid
          ≡ some (entry_of_call h lru num helpers kernel enter pid_tgid filp) =
        elim entered.kept [ inl (mine, others) ↦ mine | inr (full, same) ↦ cc ] in
      (
        s',
        runs,
        entered.ready,
        try_fslat_exit-Finished helpers h lru cbor rings filpop leave pid_tgid ret (handed x s') n _
            (record {
              seq = λ k e. subst IsU64 (some_injective n k (sym c ∙ e)) un;
              stats = all;
              paths = entered.ready.paths;
            })
            short unow c found pos,
      )
