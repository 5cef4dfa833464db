-- ===== src/Fslat/Program/Numbering.antt =====
-- The messages of a sequence of runs of the programs of
-- producers/fslatency/vfslatency-ebpf/src/main.rs, and their numbers.
use ebpf_ldms.Prelude.{
  ℕ, ◌≡◌, sym, ap, ◌∙◌, List, [], ◌∷◌, ◌++◌, append-nil, append_assoc, some, get_elem?, add64,
}
use ebpf_ldms.Fslat.Exit.Numbers.{HasNumber, Numbered, none_left, one_more, numbers_of, Joined}
use ebpf_ldms.Bpf.Helpers.{Helpers}
use ebpf_ldms.Bpf.HashMap.{HashMap, LruHashMap}
use ebpf_ldms.Bpf.RingBuf.{RingBuf}
use ebpf_ldms.Bpf.Encoder.{Encoder}
use ebpf_ldms.Bpf.ModNum.{ModNum}
use ebpf_ldms.Fslat.Maps.{FsLatencyStats, EntryRec, PidTgid}
use ebpf_ldms.Fslat.Exit.{ExitState, ExitResult}
use ebpf_ldms.Fslat.Probes.{StatsMap, FslatProbe}
use ebpf_ldms.Fslat.Program.{Event, entry, exit, ExitCall, ProgramMaps, exit_maps, put_exit, Runs}
use ebpf_ldms.Fslat.Program.Maintained.{IsProgram, IsProbe, IsEvent}
use ebpf_ldms.Fslat.Program.Returning.{Happens, enters, leaves, fails}
use ebpf_ldms.Fslat.Exit.Prefixes.{HasPrefixes, IsConfigured-earlier}
use ebpf_ldms.Fslat.Program.Separate.{History-KeepsPrefixes}
use ebpf_ldms.Fslat.Program.Histories.{AreEvents, History, begin, and_then, Runs-History}

-- The statistics maps, before the runs.
module _ (stats : StatsMap → List FsLatencyStats) where
  -- A record that reads as the message of a number, for the function of a probe of the program and a
  -- prefix that is configured in the map of the probe.
  abbrev pub IsMessage : ℕ → List ℕ → Type 0
  IsMessage n bytes =
      (p : FslatProbe) × (now : ℕ) × IsProbe p × HasNumber p.function now (stats p.map) n bytes

  -- Messages with consecutive numbers, from the first number up to, not including, the last.
  pub data Messages : ℕ → List (List ℕ) → ℕ → Type 0 where
    none_sent : {n : ℕ} → Messages n [] n
    one_sent :
        {n m : ℕ} {bytes : List ℕ} {others : List (List ℕ)}
        → IsMessage n bytes
        → Messages (add64 n 1) others m
        → Messages n (bytes ∷ others) m

  Numbered-Messages :
      (p : FslatProbe) (now n m : ℕ) (new : List (List ℕ))
      → IsProbe p
      → Numbered p.function now (stats p.map) n new m
      → Messages n new m
  Numbered-Messages p now n m new is none_left = none_sent
  Numbered-Messages p now n m new is (one_more has rest) =
      one_sent (p, now, is, has) (Numbered-Messages p now _ m _ is rest)

  Messages-append :
      (n m k : ℕ) (xs ys : List (List ℕ))
      → Messages n xs m
      → Messages m ys k
      → Messages n (xs ++ ys) k
  Messages-append n m k xs ys none_sent behind = behind
  Messages-append n m k xs ys (one_sent is more) behind =
      one_sent is (Messages-append _ m k _ ys more behind)

-- Messages for the prefixes of later maps are for those of earlier maps.
Messages-earlier :
    (earlier later : StatsMap → List FsLatencyStats) (n m : ℕ) (new : List (List ℕ))
    → ((map : StatsMap) → HasPrefixes (later map) (earlier map))
    → Messages later n new m
    → Messages earlier n new m
Messages-earlier earlier later n m new has none_sent = none_sent
Messages-earlier earlier later n m new has (one_sent (p, now, is, message) more) =
    let (s, rest, reads, words, at) = message in
    let at' = IsConfigured-earlier (later p.map) (earlier p.map) s (has p.map) at in
    one_sent (p, now, is, (s, rest, reads, words, at'))
      (Messages-earlier earlier later _ m _ has more)

module _ (helpers : Helpers) (h : HashMap ℕ ℕ) (lru : LruHashMap PidTgid EntryRec) (num : ModNum 16)
    (cbor : Encoder) (rings : RingBuf 1024) where
  -- The ring after runs holds new messages behind those of before, and the counter their end.
  abbrev pub Continued :
      ProgramMaps helpers h lru num cbor rings
      → ProgramMaps helpers h lru num cbor rings
      → ℕ
      → Type 0
  Continued s t n =
      (m : ℕ) × (get_elem? t.counter 0 ≡ some m)
      × (new : List (List ℕ)) × (rings.records t.ring ≡ rings.records s.ring ++ new)
      × Messages s.stats n new m

  continue :
      (s t u : ProgramMaps helpers h lru num cbor rings) (n m : ℕ)
      → ((map : StatsMap) → HasPrefixes (t.stats map) (s.stats map))
      → Continued s t n
      → ((k : ℕ) → get_elem? t.counter 0 ≡ some k → Continued t u k)
      → Continued s u n
  continue s t u n m has (k, at, new, records, messages) next =
      let (j, at', new', records', messages') = next k at in
      (
        j,
        at',
        new ++ new',
        records' ∙ (ap (λ l. l ++ new') records ∙ append_assoc (rings.records s.ring) new new'),
        Messages-append s.stats n k j new new' messages
            (Messages-earlier s.stats t.stats k j new' has messages'),
      )

  -- What `numbers_of` says of an exit, of the maps of the program.
  exit-Continued :
      (p : FslatProbe) (c : ExitCall) (s : ProgramMaps helpers h lru num cbor rings) (n : ℕ)
      (x : ExitState helpers h lru cbor rings)
      → IsProbe p
      → (m : ℕ) × (get_elem? x.counter 0 ≡ some m)
        × Joined p.function c.times.now (s.stats p.map) rings cbor s.ring n x.ring m
      → Continued s (put_exit helpers h lru num cbor rings p.map s x) n
  exit-Continued p c s n x is (m, at, (new, records, numbers)) =
      (m, at, new, records, Numbered-Messages s.stats p c.times.now n m new is numbers)

  Happens-Continued :
      (e : Event) (s t : ProgramMaps helpers h lru num cbor rings) (n : ℕ)
      → IsEvent e
      → get_elem? s.counter 0 ≡ some n
      → Happens helpers h lru num cbor rings e s t
      → Continued s t n
  Happens-Continued (entry p c) s t n is at (enters done) =
      (n, at, [], sym (append-nil (rings.records s.ring)), none_sent)
  Happens-Continued (exit p c) s t n (is, un, ur) at (leaves {x} ends) =
      exit-Continued p c s n x is (
        numbers_of helpers h lru cbor rings p.function c.times c.pid_tgid (c.arg p.exit_arg)
          (exit_maps helpers h lru num cbor rings p.map s) n (ExitResult.ok x) at ends)
  Happens-Continued (exit p c) s t n (is, un, ur) at (fails {x} ends) =
      exit-Continued p c s n x is (
        numbers_of helpers h lru cbor rings p.function c.times c.pid_tgid (c.arg p.exit_arg)
          (exit_maps helpers h lru num cbor rings p.map s) n (ExitResult.err x) at ends)

  History-Continued :
      (es : List Event) (s t : ProgramMaps helpers h lru num cbor rings) (n : ℕ)
      → AreEvents es
      → get_elem? s.counter 0 ≡ some n
      → History helpers h lru num cbor rings s es t
      → Continued s t n
  History-Continued [] s t n are at begin =
      (n, at, [], sym (append-nil (rings.records s.ring)), none_sent)
  History-Continued (e ∷ es) s t n (is, are) at (and_then {t = u} past w happens) =
      continue s u t n n
        (λ map. (History-KeepsPrefixes helpers h lru num cbor rings map es s u past).1)
        (History-Continued es s u n are at past) (λ k at'. Happens-Continued e u t k is at' happens)

  -- The records that any sequence of runs from well-formed maps puts into the ring stand behind
  -- those of before. A reader of CBOR gets back from each the message of one of the probes, for a
  -- prefix that is configured in the map of that probe, and their numbers are consecutive (modulo
  -- 2 ^ 64), over all probes, threads and CPUs, from the number in the counter on. The counter holds
  -- the number of the message to come.
  pub Runs-Messages :
      (es : List Event) (s t : ProgramMaps helpers h lru num cbor rings) (n : ℕ)
      → IsProgram helpers h lru num cbor rings s
      → AreEvents es
      → Runs helpers h lru num cbor rings s es t
      → get_elem? s.counter 0 ≡ some n
      → Continued s t n
  Runs-Messages es s t n w are runs at =
      History-Continued es s t n are at
        (Runs-History helpers h lru num cbor rings es s t w are runs).0
