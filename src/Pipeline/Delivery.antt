-- ===== src/Pipeline/Delivery.antt =====
-- What `ring_loop` of daemon/ebpf_ldms/src/main.rs does with the records that the programs of
-- producers/fslatency/vfslatency-ebpf/src/main.rs put into the ring.
use ebpf_ldms.Prelude.{
  both, ℕ, zero, suc, ◌≡◌, refl, sym, ◌∙◌, subst, List, [], ◌∷◌, ◌++◌, Bool, true, ◌&&◌, some,
  some_injective, get_elem?, map, add64, codes,
}
use ebpf_ldms.Bpf.Helpers.{Helpers}
use ebpf_ldms.Bpf.HashMap.{HashMap, LruHashMap}
use ebpf_ldms.Bpf.RingBuf.{RingBuf}
use ebpf_ldms.Bpf.Encoder.{Encoder}
use ebpf_ldms.Bpf.ModNum.{ModNum}
use ebpf_ldms.Fslat.Maps.{FsLatencyStats, EntryRec, PidTgid, StatsSnapshot}
use ebpf_ldms.Fslat.Exit.Prefixes.{IsConfigured}
use ebpf_ldms.Fslat.Message.Cbor.{read_item}
use ebpf_ldms.Fslat.Message.Put.{message_item}
use ebpf_ldms.Fslat.Exit.{event_at}
use ebpf_ldms.Fslat.Probes.{StatsMap, FslatProbe, fslat_probes}
use ebpf_ldms.Fslat.Program.{Event, ProgramMaps, Runs}
use ebpf_ldms.Fslat.Program.Maintained.{IsProgram, IsProbe}
use ebpf_ldms.Fslat.Program.Histories.{AreEvents}
use ebpf_ldms.Fslat.Program.Numbering.{IsMessage, Messages, one_sent, Runs-Messages}
use ebpf_ldms.Daemon.Stream.{Ldms, SockStream}
use ebpf_ldms.Daemon.Ring.{
  Json, Burster, Settings, LoopState, Step, goes_on, ends, panics, handle_item, serve_items,
}
use ebpf_ldms.Pipeline.Utf8.{is_utf8}
use ebpf_ldms.Pipeline.Crates.{Crates}
use ebpf_ldms.Pipeline.Arriving.{Arrives, handle_item-Arrives}

all_named : List FslatProbe → Bool
all_named [] = true
all_named (p ∷ ps) = is_utf8 p.function && all_named ps

probe_named :
    (ps : List FslatProbe) (i : ℕ) (p : FslatProbe)
    → all_named ps ≡ true
    → get_elem? ps i ≡ some p
    → is_utf8 p.function ≡ true
unfolding all_named
probe_named [] i p h e = cc
probe_named (q ∷ ps) zero p h e =
    subst (λ x. is_utf8 x.function ≡ true) (some_injective q p e) (both _ (all_named ps) h).0
probe_named (q ∷ ps) (suc i) p h e = probe_named ps i p (both _ (all_named ps) h).1 e

IsProbe-named : (p : FslatProbe) → IsProbe p → is_utf8 p.function ≡ true
unfolding all_named fslat_probes is_utf8
IsProbe-named p (i, e) = probe_named fslat_probes i p refl e

append_cancel : (xs ys zs : List (List ℕ)) → xs ++ ys ≡ xs ++ zs → ys ≡ zs
append_cancel [] ys zs e = e
append_cancel (x ∷ xs) ys zs e = append_cancel xs ys zs cc

-- The records of a sequence, without the times at which they are handled.
abbrev pub bytes_of : List (List ℕ × ℕ) → List (List ℕ)
bytes_of items = map (λ item. item.0) items

module _ (json : Json) (crates : Crates json) (burster : Burster) (ldms : Ldms) (c : Settings json)
    (stream : SockStream ldms) (stats : StatsMap → List FsLatencyStats) where
  -- A record that is the message of a number, for a prefix of the given maps, and what the loop does with it.
  pub record IsTaken (n : ℕ) (bytes : List ℕ) (now : ℕ) (t : LoopState json burster ldms)
      (r : Step json burster ldms) : Type 0 where
    pub probe : FslatProbe
    pub is : IsProbe probe
    pub monotonic : ℕ
    pub snapshot : StatsSnapshot
    pub rest : List ℕ
    pub reads :
        read_item 64 bytes
        ≡ some (message_item (event_at monotonic n) snapshot probe.function (codes "ns"), rest)
    pub configured : IsConfigured (stats probe.map) snapshot
    pub arrives :
        Arrives json crates c
          (event_at monotonic n)
          snapshot
          probe.function
          (codes "ns")
          burster
          ldms
          stream
          now
          t
          r

  -- The messages with consecutive numbers, one after another, up to the first error.
  pub data Delivery
      : ℕ → List (List ℕ × ℕ) → LoopState json burster ldms → Step json burster ldms → Type 0 where
    all_taken : {n : ℕ} {t : LoopState json burster ldms} → Delivery n [] t (goes_on t)
    taken :
        {n now : ℕ} {bytes : List ℕ} {items : List (List ℕ × ℕ)} {t u : LoopState json burster ldms}
        {r : Step json burster ldms}
        → IsTaken n bytes now t (goes_on u)
        → Delivery (add64 n 1) items u r
        → Delivery n ((bytes, now) ∷ items) t r
    broken_off :
        {n now : ℕ} {bytes : List ℕ} {items : List (List ℕ × ℕ)} {t u : LoopState json burster ldms}
        → IsTaken n bytes now t (ends u)
        → Delivery n ((bytes, now) ∷ items) t (ends u)

  handle_item-IsTaken :
      (n : ℕ) (bytes : List ℕ) (now : ℕ) (t : LoopState json burster ldms)
      → IsMessage stats n bytes
      → IsTaken n bytes now t (handle_item json burster ldms c stream bytes now t)
  unfolding is_utf8
  handle_item-IsTaken n bytes now t (p, monotonic, is, (s, rest, reads, words, configured)) =
      record {
        probe = p;
        is = is;
        monotonic = monotonic;
        snapshot = s;
        rest = rest;
        reads = reads;
        configured = configured;
        arrives =
            handle_item-Arrives json crates c (event_at monotonic n) s p.function (codes "ns")
              burster ldms stream now t bytes rest reads words refl (IsProbe-named p is) refl;
      }

  first_taken :
      (n : ℕ) (bytes : List ℕ) (now : ℕ) (items : List (List ℕ × ℕ))
      (t : LoopState json burster ldms) (r : Step json burster ldms)
      → handle_item json burster ldms c stream bytes now t ≡ r
      → IsTaken n bytes now t r
      → ((u : LoopState json burster ldms)
          → Delivery (add64 n 1) items u (serve_items json burster ldms c stream items u))
      → Delivery n
          ((bytes, now) ∷ items)
          t
          (serve_items json burster ldms c stream ((bytes, now) ∷ items) t)
  unfolding serve_items
  first_taken n bytes now items t (goes_on u) e h go = rw (serve_items, e) (taken h (go u))
  first_taken n bytes now items t (ends u) e h go = rw (serve_items, e) (broken_off h)
  first_taken n bytes now items t (panics u) e h go = elim h.arrives [ ]

  serve_items-Delivery :
      (n m : ℕ) (items : List (List ℕ × ℕ)) (t : LoopState json burster ldms)
      → Messages stats n (bytes_of items) m
      → Delivery n items t (serve_items json burster ldms c stream items t)
  unfolding serve_items
  serve_items-Delivery n m [] t messages = all_taken
  serve_items-Delivery n m ((bytes, now) ∷ items) t (one_sent is more) =
      first_taken n bytes now items t _ refl (handle_item-IsTaken n bytes now t is)
        (λ u. serve_items-Delivery (add64 n 1) m items u more)

module _ (json : Json) (crates : Crates json) (burster : Burster) (ldms : Ldms) (c : Settings json)
    (stream : SockStream ldms) (helpers : Helpers) (h : HashMap ℕ ℕ)
    (lru : LruHashMap PidTgid EntryRec) (num : ModNum 16) (cbor : Encoder)
    (rings : RingBuf 1024) where
  -- The records that any sequence of runs of the programs from well-formed maps puts into the ring
  -- are, for the loop of the daemon, messages with consecutive numbers (modulo 2 ^ 64) for prefixes
  -- that are configured: it leaves out one whose prefix is no UTF-8 or whose time is before the epoch,
  -- counts any other one against the limit of the producer, and publishes it, if the limit lets it
  -- pass, as a JSON value with the name, the prefix and all numbers of the window, the host and the
  -- time. Only an error of the printing or the publishing ends it before the last record.
  pub Runs-Delivery :
      (es : List Event) (s t : ProgramMaps helpers h lru num cbor rings) (n : ℕ)
      (items : List (List ℕ × ℕ)) (state : LoopState json burster ldms)
      → IsProgram helpers h lru num cbor rings s
      → AreEvents es
      → Runs helpers h lru num cbor rings s es t
      → get_elem? s.counter 0 ≡ some n
      → rings.records t.ring ≡ rings.records s.ring ++ bytes_of items
      → Delivery json crates burster ldms c stream s.stats n items state
          (serve_items json burster ldms c stream items state)
  Runs-Delivery es s t n items state w are runs at records =
      let (m, _, new, joined, messages) =
        Runs-Messages helpers h lru num cbor rings es s t n w are runs at in
      let same = append_cancel (rings.records s.ring) new (bytes_of items) (sym joined ∙ records) in
      serve_items-Delivery json crates burster ldms c stream s.stats n m items state
        (subst (λ l. Messages s.stats n l m) same messages)
