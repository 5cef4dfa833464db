-- ===== src/Fslat/Entry.antt =====
-- The start of a probed call: `try_fslat_entry` of producers/fslatency/vfslatency-common/src/lib.rs.
pub mod Stored
use ebpf_ldms.Prelude.{
  ℕ, ◌^◌, List, some, none, get_elem?, set, leb, if◌then◌else◌, sub64, length, replicate,
}
use ebpf_ldms.Bpf.Helpers.{Helpers}
use ebpf_ldms.Bpf.HashMap.{HashMap, LruHashMap}
use ebpf_ldms.Bpf.ModNum.{ModNum}
use ebpf_ldms.Bpf.Kernel.{Kernel}
use ebpf_ldms.Fslat.Maps.{EntryRec, PidTgid, PathComponent, PathSlice}
use ebpf_ldms.Fslat.Hist.{Prof, log2_bucket, hist_increment, check_prof_reset}
use ebpf_ldms.Fslat.Path.Assembling.{PathOutcome, PathTimes, partial_d_path}

-- The readings of the clock: in `check_prof_reset`, and around and inside `partial_d_path`.
pub record EntryTimes : Type 0 where
  pub reset : ℕ
  pub start : ℕ
  pub path : PathTimes
  pub end : ℕ

module _ (h : HashMap ℕ ℕ) (lru : LruHashMap PidTgid EntryRec) where
  -- The maps that an entry works on; `pathbuf` and `pathbuftmp` are those of this CPU.
  pub record EntryState : Type 0 where
    pub prof : Prof h
    pub pathbuf : List PathSlice
    pub pathbuftmp : List PathComponent
    pub ptrlist : lru.Map

  pub data EntryResult : Type 0 where
    ok err : EntryState → EntryResult

  -- The four histograms of an entry.
  unfoldable pub count_entry : EntryTimes → PathOutcome → Prof h → Prof h
  count_entry times out p = record p {
    path_res = hist_increment h p.path_res (log2_bucket (sub64 times.end times.start));
    path_walk = hist_increment h p.path_walk (log2_bucket out.walk_ns);
    path_assembly = hist_increment h p.path_assembly (log2_bucket out.assembly_ns);
    walk_iters = hist_increment h p.walk_iters out.walk_iters;
  }

  module _ (num : ModNum 16) (helpers : Helpers) (kernel : Kernel) where
    -- An insert that the map refuses is ignored. The result of `partial_d_path` is cast to an i32.
    unfoldable pub try_fslat_entry : EntryTimes → PidTgid → ℕ → EntryState → EntryResult
    unfolding count_entry
    try_fslat_entry times pid_tgid filp s0 =
        let s = record s0 { prof = check_prof_reset h times.reset s0.prof } in
        let pathptr = (kernel.file filp).f_path in
        elim (get_elem? s.pathbuf 0) [
          | none ↦ err s
          | some pathfrag ↦
              let out =
                partial_d_path num helpers kernel pathptr pathfrag s.pathbuftmp times.path in
              let counted = record s {
                prof = count_entry times out s.prof;
                pathbuf = set s.pathbuf 0 out.pathfrag;
                pathbuftmp = out.pathbuftmp;
              } in
              let entryrec : EntryRec = record { timestamp = times.start; path = out.pathfrag } in
              let ptrlist : lru.Map = elim (lru.insert s.ptrlist pid_tgid entryrec) [
                | none ↦ s.ptrlist
                | some m ↦ m
              ] in
              if leb (2 ^ 31) out.ret
              then err counted
              else ok (record counted {
                ptrlist = ptrlist;
                pathbuf = set s.pathbuf 0 (replicate (length out.pathfrag) 0);
              })
        ]
