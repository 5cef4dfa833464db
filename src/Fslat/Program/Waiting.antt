-- ===== src/Fslat/Program/Waiting.antt =====
-- The entries that wait in PTRLIST between the runs of the programs of
-- producers/fslatency/vfslatency-ebpf/src/main.rs, and the calls that they stand for.
use ebpf_ldms.Prelude.{ℕ, ◌≡◌, sym, ◌∙◌, subst, inl, inr, List, [], ◌∷◌, some, none, some_injective}
use ebpf_ldms.Fslat.Entry.{EntryState}
use ebpf_ldms.Fslat.Entry.Stored.{Entered, entry_of_call, PidTgid-cases, none-ne-some}
use ebpf_ldms.Bpf.Helpers.{Helpers}
use ebpf_ldms.Bpf.HashMap.{HashMap, LruHashMap}
use ebpf_ldms.Bpf.RingBuf.{RingBuf}
use ebpf_ldms.Bpf.Encoder.{Encoder}
use ebpf_ldms.Bpf.ModNum.{ModNum}
use ebpf_ldms.Fslat.Maps.{EntryRec, PidTgid}
use ebpf_ldms.Fslat.Exit.{ExitResult, leave}
use ebpf_ldms.Fslat.Exit.Numbers.{After}
use ebpf_ldms.Fslat.Exit.Whole.{Exits, uncounted, unknown, failing, visited, checked}
use ebpf_ldms.Fslat.Probes.{FslatProbe}
use ebpf_ldms.Fslat.Program.{
  Event, entry, exit, EntryCall, ExitCall, ProgramMaps, entry_maps, put_entry, exit_maps, put_exit,
  Runs,
}
use ebpf_ldms.Fslat.Program.Maintained.{IsProgram}
use ebpf_ldms.Fslat.Program.Returning.{Happens, enters, leaves, fails}
use ebpf_ldms.Fslat.Program.Histories.{AreEvents, History, begin, and_then, Runs-History}

-- The event is the end of a call of the thread.
abbrev pub Ends : PidTgid → Event → Type 0
Ends k (entry p c) = ⊥
Ends k (exit p c) = c.pid_tgid ≡ k

module _ (helpers : Helpers) (h : HashMap ℕ ℕ) (lru : LruHashMap PidTgid EntryRec) (num : ModNum 16)
    (cbor : Encoder) (rings : RingBuf 1024) where
  -- An entry that a call of the thread has left, which has not ended since: its start, and the path
  -- that its file had then.
  pub data Since (k : PidTgid) : List Event → EntryRec → Type 0 where
    made :
        {es : List Event} {p : FslatProbe} {c : EntryCall}
        → c.pid_tgid ≡ k
        → Since k
            (entry p c ∷ es)
            (entry_of_call h lru num helpers c.kernel c.times c.pid_tgid (c.arg 0))
    waits :
        {es : List Event} {e : Event} {rec : EntryRec}
        → ¬ Ends k e
        → Since k es rec
        → Since k (e ∷ es) rec

  abbrev pub AllSince : List Event → ProgramMaps helpers h lru num cbor rings → Type 0
  AllSince es s = (k : PidTgid) (rec : EntryRec) → lru.get s.ptrlist k ≡ some rec → Since k es rec

  enters-AllSince :
      (p : FslatProbe) (c : EntryCall) (es : List Event)
      (s : ProgramMaps helpers h lru num cbor rings) (x : EntryState h lru)
      → AllSince es s
      → Entered h lru num helpers c.kernel c.times c.pid_tgid
          (c.arg 0)
          (entry_maps helpers h lru num cbor rings c.cpu s)
          x
      → AllSince (entry p c ∷ es) (put_entry helpers h lru num cbor rings c.cpu s x)
  enters-AllSince p c es s x all done k rec at = elim done.kept [
    | inr (full, same) ↦ waits (λ b. b) (all k rec (subst (λ m. lru.get m k ≡ some rec) same at))
    | inl (mine, others) ↦ elim (PidTgid-cases k c.pid_tgid) [
      | inl same ↦
          subst (Since k (entry p c ∷ es))
            (some_injective _ rec (sym mine ∙ subst (λ j. lru.get x.ptrlist j ≡ some rec) same at))
            (made (sym same))
      | inr other ↦ elim (others k other) [
        | inl old ↦ waits (λ b. b) (all k rec (sym old ∙ at))
        | inr gone ↦ absurd (none-ne-some rec (sym gone ∙ at))
      ]
    ]
  ]

  removed-AllSince :
      (p : FslatProbe) (c : ExitCall) (es : List Event)
      (s : ProgramMaps helpers h lru num cbor rings)
      → AllSince es s
      → (k : PidTgid) (rec : EntryRec) → lru.get (lru.remove s.ptrlist c.pid_tgid) k ≡ some rec
      → Since k (exit p c ∷ es) rec
  removed-AllSince p c es s all k rec at = elim (PidTgid-cases k c.pid_tgid) [
    | inl same ↦ absurd (
        none-ne-some rec (
          sym (lru.get-remove_self s.ptrlist c.pid_tgid)
          ∙ subst (λ j. lru.get (lru.remove s.ptrlist c.pid_tgid) j ≡ some rec) same at))
    | inr other ↦
        waits (λ e. other (sym e))
          (all k rec (sym (lru.get-remove_ne s.ptrlist k c.pid_tgid other) ∙ at))
  ]

  -- An exit leaves no entry of its thread.
  Exits-AllSince :
      (p : FslatProbe) (c : ExitCall) (es : List Event)
      (s : ProgramMaps helpers h lru num cbor rings) (r : ExitResult helpers h lru cbor rings)
      → IsProgram helpers h lru num cbor rings s
      → AllSince es s
      → Exits helpers h lru cbor rings p.function c.times c.pid_tgid
          (c.arg p.exit_arg)
          (checked helpers h lru cbor rings c.times.reset
            (exit_maps helpers h lru num cbor rings p.map s))
          r
      → After helpers h lru cbor rings r
          (λ x. AllSince (exit p c ∷ es) (put_exit helpers h lru num cbor rings p.map s x))
  unfolding leave
  Exits-AllSince p c es s r w all (uncounted gone) = let (n, at, un) = w.counter in cc
  Exits-AllSince p c es s r w all (unknown at absent) = λ k rec found.
      elim (PidTgid-cases k c.pid_tgid) [
        | inl same ↦
            absurd (
              none-ne-some rec
                (sym absent ∙ subst (λ j. lru.get s.ptrlist j ≡ some rec) same found))
        | inr other ↦ waits (λ e. other (sym e)) (all k rec found)
      ]
  Exits-AllSince p c es s r w all (failing at found neg) = removed-AllSince p c es s all
  Exits-AllSince p c es s r w all (visited at found pos v stats us) = removed-AllSince p c es s all

  Happens-AllSince :
      (e : Event) (es : List Event) (s t : ProgramMaps helpers h lru num cbor rings)
      → IsProgram helpers h lru num cbor rings s
      → AllSince es s
      → Happens helpers h lru num cbor rings e s t
      → AllSince (e ∷ es) t
  Happens-AllSince (entry p c) es s t w all (enters {e = x} done) =
      enters-AllSince p c es s x all done
  Happens-AllSince (exit p c) es s t w all (leaves {x} ends) =
      Exits-AllSince p c es s (ExitResult.ok x) w all ends
  Happens-AllSince (exit p c) es s t w all (fails {x} ends) =
      Exits-AllSince p c es s (ExitResult.err x) w all ends

  pub History-AllSince :
      (es : List Event) (s t : ProgramMaps helpers h lru num cbor rings)
      → ((k : PidTgid) → lru.get s.ptrlist k ≡ none)
      → History helpers h lru num cbor rings s es t
      → AllSince es t
  History-AllSince [] s t empty begin = λ k rec at. absurd (none-ne-some rec (sym (empty k) ∙ at))
  History-AllSince (e ∷ es) s t empty (and_then {t = u} past w happens) =
      Happens-AllSince e es u t w (History-AllSince es s u empty past) happens

  -- Where PTRLIST is empty at first, the entry that the end of a thread's call finds in it after any
  -- sequence of runs, on any CPUs and for any threads, is the entry of a call of that very thread
  -- that has not ended since: its time is the start of that call, and its path is the specified path
  -- of that call's file.
  pub Runs-Since :
      (es : List Event) (s t : ProgramMaps helpers h lru num cbor rings) (k : PidTgid)
      (rec : EntryRec)
      → IsProgram helpers h lru num cbor rings s
      → AreEvents es
      → ((j : PidTgid) → lru.get s.ptrlist j ≡ none)
      → Runs helpers h lru num cbor rings s es t
      → lru.get t.ptrlist k ≡ some rec
      → Since k es rec
  Runs-Since es s t k rec w are empty runs at =
      History-AllSince es s t empty (Runs-History helpers h lru num cbor rings es s t w are runs).0
        k rec at
