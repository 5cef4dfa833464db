-- ===== src/Fslat/Entry/Stored.antt =====
-- What `try_fslat_entry` of lib.rs stores for the end of the call.
use ebpf_ldms.Prelude.{
  ℕ, ◌^◌, ◌-◌, ◌≡◌, ◌≢◌, refl, arith, ◌⊎◌, inl, inr, get_elem?-set_self, lt_of_get_elem?, false,
  List, Bool, ◌++◌, Bool-cases, ==_iff, ◌==◌, subst, sym, ap, ◌∙◌, some_injective, some, none,
  get_elem?, set, leb, length, length-append, length-take, length-replicate, replicate, take,
  Option-cases,
}
use ebpf_ldms.Bpf.Helpers.{Helpers}
use ebpf_ldms.Bpf.HashMap.{HashMap, LruHashMap}
use ebpf_ldms.Bpf.ModNum.{ModNum}
use ebpf_ldms.Bpf.Kernel.{Kernel}
use ebpf_ldms.Fslat.Maps.{EntryRec, PidTgid, PathSlice, IsPathSlice}
use ebpf_ldms.Fslat.Path.Spec.{kept_path, padded, lead, join}
use ebpf_ldms.Fslat.Path.Assembling.{partial_d_path, PathOutcome}
use ebpf_ldms.Fslat.Path.Slots.{IsRing}
use ebpf_ldms.Fslat.Path.Whole.{blank, resolve, partial_d_path-kept_path}
use ebpf_ldms.Fslat.Hist.{check_prof_reset, hist_increment}
use ebpf_ldms.Fslat.Entry.{EntryTimes, EntryState, ok, count_entry, try_fslat_entry}

pub none-ne-some {ℓ} : {A : Type ℓ} (a : A) → none ≢ some a
none-ne-some a e = cc

pub PidTgid-cases : (j k : PidTgid) → (j ≡ k) ⊎ (j ≢ k)
PidTgid-cases (a, b) (c, d) = elim (Bool-cases (a == c)) [
  | inr apart ↦ inr (λ e. absurd (ground (arith, ap (λ (x : PidTgid). x.0) e)))
  | inl together ↦ elim (Bool-cases (b == d)) [
    | inr apart ↦ inr (λ e. absurd (ground (arith, ap (λ (x : PidTgid). x.1) e)))
    | inl too ↦ inl (rw ((==_iff a c).0 together, (==_iff b d).0 too))
  ]
]

kept_path-IsPathSlice : (r : List (List ℕ) × Bool) → IsPathSlice (kept_path r)
unfolding kept_path padded
kept_path-IsPathSlice (names, absolute) =
    let text = lead absolute ++ join (take 16 names) in
    omega (
      arith,
      length-append (take 32 text) (replicate (32 - length text) 0),
      length-take 32 text,
      length-replicate {A = ℕ} (32 - length text) 0,
    )

module _ (h : HashMap ℕ ℕ) (lru : LruHashMap PidTgid EntryRec) (num : ModNum 16) (helpers : Helpers)
    (kernel : Kernel) where
  -- Between calls the path buffer of a CPU is blank, its ring has its shape, and every entry that
  -- waits for its call to end holds a path of its size.
  pub record IsReady (s : EntryState h lru) : Type 0 where
    pub pathbuf : get_elem? s.pathbuf 0 ≡ some blank
    pub ring : IsRing s.pathbuftmp
    pub paths : (k : PidTgid) (e : EntryRec) → lru.get s.ptrlist k ≡ some e → IsPathSlice e.path

  module _ (times : EntryTimes) (pid_tgid : PidTgid) (filp : ℕ) where
    -- The entry that the call leaves: when it started, and the path of its file.
    unfoldable pub entry_of_call : EntryRec
    entry_of_call = record {
      timestamp = times.start;
      path = kept_path (resolve kernel (kernel.file filp).f_path);
    }

    stored : PathSlice → EntryRec
    stored p = record { timestamp = times.start; path = p }

    inserted : lru.Map → EntryRec → lru.Map
    inserted m e = elim (lru.insert m pid_tgid e) [ none ↦ m | some m' ↦ m' ]

    -- The maps after an entry that got an outcome from `partial_d_path`.
    after_entry : PathOutcome → EntryState h lru → EntryState h lru
    after_entry out s = record {
      prof = count_entry h lru times out (check_prof_reset h times.reset s.prof);
      pathbuf = set s.pathbuf 0 (replicate (length out.pathfrag) 0);
      pathbuftmp = out.pathbuftmp;
      ptrlist = inserted s.ptrlist (stored out.pathfrag);
    }

    -- The entry is in the map, unless the map refused it and stays as it was. No other entry
    -- changes, but the map may drop some to make room.
    abbrev pub Kept : lru.Map → lru.Map → Type 0
    Kept m m' =
        ((lru.get m' pid_tgid ≡ some entry_of_call)
          × ((k : PidTgid) → k ≢ pid_tgid → (lru.get m' k ≡ lru.get m k) ⊎ (lru.get m' k ≡ none)))
        ⊎ ((lru.insert m pid_tgid entry_of_call ≡ none) × (m' ≡ m))

    pub record Entered (s s' : EntryState h lru) : Type 0 where
      pub ready : IsReady s'
      pub kept : Kept s.ptrlist s'.ptrlist
      pub walk_iters :
          s'.prof.walk_iters
          ≡ hist_increment h
              (check_prof_reset h times.reset s.prof).walk_iters
              (length (resolve kernel (kernel.file filp).f_path).0)

    entry_of_call-IsPathSlice : IsPathSlice entry_of_call.path
    unfolding entry_of_call
    entry_of_call-IsPathSlice = kept_path-IsPathSlice (resolve kernel (kernel.file filp).f_path)

    insert_lem : (m : lru.Map) → Kept m (inserted m entry_of_call)
    unfolding inserted
    insert_lem m = elim (Option-cases (lru.insert m pid_tgid entry_of_call)) [
      | inl full ↦ rw (inserted, full) (inr (refl, refl))
      | inr (m', e) ↦
          rw (inserted, e)
            (inl (
              lru.get-insert_self m m' pid_tgid entry_of_call e,
              λ k ne. lru.get-insert_ne m m' k pid_tgid entry_of_call e ne,
            ))
    ]

    Kept-paths :
        (m m' : lru.Map)
        → ((k : PidTgid) (e : EntryRec) → lru.get m k ≡ some e → IsPathSlice e.path)
        → Kept m m'
        → (k : PidTgid) (e : EntryRec) → lru.get m' k ≡ some e
        → IsPathSlice e.path
    Kept-paths m m' all kept k e at = elim kept [
      | inr (full, same) ↦ all k e (subst (λ x. lru.get x k ≡ some e) same at)
      | inl (mine, others) ↦ elim (PidTgid-cases k pid_tgid) [
        | inl same ↦
            subst (λ (x : EntryRec). IsPathSlice x.path)
              (some_injective entry_of_call e (sym mine ∙ (ap (lru.get m') (sym same) ∙ at)))
              (entry_of_call-IsPathSlice)
        | inr other ↦ elim (others k other) [
          | inl old ↦ all k e (sym old ∙ at)
          | inr gone ↦ absurd (none-ne-some e (sym gone ∙ at))
        ]
      ]
    ]

    -- From ready maps, an entry never fails and leaves ready maps. It stores its start and the
    -- specified path of the file for the calling thread, unless the map refuses it, and counts the
    -- number of names found among the walks.
    pub try_fslat_entry-Entered :
        (s : EntryState h lru)
        → IsReady s
        → (s' : EntryState h lru) × (try_fslat_entry h lru num helpers kernel times pid_tgid filp s
            ≡ ok s')
          × Entered s s'
    unfolding try_fslat_entry after_entry inserted stored entry_of_call count_entry
    try_fslat_entry-Entered s w =
        let path = (kernel.file filp).f_path in
        let out = partial_d_path num helpers kernel path blank s.pathbuftmp times.path in
        let (text, iters, few, small, ring) =
          partial_d_path-kept_path num kernel helpers path s.pathbuftmp times.path w.ring in
        let positive : leb (2 ^ 31) out.ret ≡ false = ground arith in
        let same : stored out.pathfrag ≡ entry_of_call = ap stored text in
        let size : length out.pathfrag ≡ 32 = rw text (entry_of_call-IsPathSlice) in
        let blanked : replicate (length out.pathfrag) 0 ≡ blank = ap (λ n. replicate n 0) size in
        let fits = lt_of_get_elem? s.pathbuf 0 blank w.pathbuf in
        let kept : Kept s.ptrlist (inserted s.ptrlist (stored out.pathfrag)) =
          rw same (insert_lem s.ptrlist) in
        (
          after_entry out s,
          rw (try_fslat_entry, w.pathbuf, positive),
          record {
            ready = record {
              pathbuf = get_elem?-set_self s.pathbuf 0 _ fits ∙ ap some blanked;
              ring = ring;
              paths = Kept-paths s.ptrlist _ w.paths kept;
            };
            kept = kept;
            walk_iters = rw (count_entry, iters);
          },
        )
