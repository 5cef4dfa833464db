-- ===== src/Fslat/Program/Histories.antt =====
-- Sequences of runs of the programs of producers/fslatency/vfslatency-ebpf/src/main.rs, on any CPUs
-- and for any threads, one run after another.
use ebpf_ldms.Prelude.{ℕ, ◌≡◌, sym, ◌∙◌, subst, List, [], ◌∷◌}
use ebpf_ldms.Bpf.Helpers.{Helpers}
use ebpf_ldms.Bpf.HashMap.{HashMap, LruHashMap}
use ebpf_ldms.Bpf.RingBuf.{RingBuf}
use ebpf_ldms.Bpf.Encoder.{Encoder}
use ebpf_ldms.Bpf.ModNum.{ModNum}
use ebpf_ldms.Fslat.Maps.{EntryRec, PidTgid}
use ebpf_ldms.Fslat.Program.{Event, ProgramMaps, Outcome, returns, Runs, start, more}
use ebpf_ldms.Fslat.Program.Maintained.{IsProgram, IsEvent}
use ebpf_ldms.Fslat.Program.Returning.{Happens, run_probe-Returns}

abbrev pub AreEvents : List Event → Type 0
AreEvents [] = Unit {0}
AreEvents (e ∷ es) = IsEvent e × AreEvents es

module _ (helpers : Helpers) (h : HashMap ℕ ℕ) (lru : LruHashMap PidTgid EntryRec) (num : ModNum 16)
    (cbor : Encoder) (rings : RingBuf 1024) where
  -- What happens from the given maps on, by the descriptions, each run on well-formed maps. The latest run stands first.
  pub data History (s : ProgramMaps helpers h lru num cbor rings)
      : List Event → ProgramMaps helpers h lru num cbor rings → Type 0 where
    begin : History s [] s
    and_then :
        {es : List Event} {t u : ProgramMaps helpers h lru num cbor rings} {e : Event}
        → History s es t
        → IsProgram helpers h lru num cbor rings t
        → Happens helpers h lru num cbor rings e t u
        → History s (e ∷ es) u

  -- From well-formed maps, runs of the programs on any CPUs and for any threads, one after another,
  -- with u64 readings and in which every read of kernel memory succeeds, all return, and leave
  -- well-formed maps; no exit among them panics or unwraps an error.
  pub Runs-IsProgram :
      (es : List Event) (s : ProgramMaps helpers h lru num cbor rings)
      → IsProgram helpers h lru num cbor rings s
      → AreEvents es
      → (t : ProgramMaps helpers h lru num cbor rings) × Runs helpers h lru num cbor rings s es t
        × IsProgram helpers h lru num cbor rings t
  Runs-IsProgram [] s w is = (s, start, w)
  Runs-IsProgram (e ∷ es) s w (is, are) =
      let (t, runs, kept) = Runs-IsProgram es s w are in
      let (r, u, ends, happens, well) =
        run_probe-Returns helpers h lru num cbor rings e t kept is in
      (u, more runs ends, well)

  returns_injective :
      (r r' : ℕ) (s s' : ProgramMaps helpers h lru num cbor rings)
      → Outcome.returns r s ≡ returns r' s'
      → s ≡ s'
  returns_injective r r' s s' e = cc

  -- Runs go as they are described.
  pub Runs-History :
      (es : List Event) (s t : ProgramMaps helpers h lru num cbor rings)
      → IsProgram helpers h lru num cbor rings s
      → AreEvents es
      → Runs helpers h lru num cbor rings s es t
      → History s es t × IsProgram helpers h lru num cbor rings t
  Runs-History [] s t w is start = (begin, w)
  Runs-History (e ∷ es) s t w (is, are) (more {t = u} {r = r} runs ends) =
      let (past, kept) = Runs-History es s u w are runs in
      let (r', t', ends', happens, well) =
        run_probe-Returns helpers h lru num cbor rings e u kept is in
      let same = returns_injective r' r t' t (sym ends' ∙ ends) in
      subst (λ v. History s (e ∷ es) v × IsProgram helpers h lru num cbor rings v) same
        (and_then past kept happens, well)
