-- ===== src/Fslat/Exit/Numbers.antt =====
-- The numbers of the messages that `try_fslat_exit` of lib.rs puts into the ring.
use ebpf_ldms.Prelude.{
  ℕ, ◌≤◌, ◌≡◌, refl, sym, subst, some_injective, ap, ◌∙◌, List, [], ◌∷◌, ◌++◌, append-nil,
  append_assoc, some, get_elem?, set, length, add64, codes, IsU64,
}
use ebpf_ldms.Bpf.Helpers.{Helpers}
use ebpf_ldms.Bpf.HashMap.{HashMap, LruHashMap}
use ebpf_ldms.Bpf.RingBuf.{RingBuf}
use ebpf_ldms.Bpf.Encoder.{Encoder}
use ebpf_ldms.Fslat.Maps.{FsLatencyStats, EntryRec, PidTgid, StatsSnapshot}
use ebpf_ldms.Fslat.Message.Cbor.{read_item, IsItem}
use ebpf_ldms.Fslat.Message.Put.{message_item}
use ebpf_ldms.Fslat.Exit.{
  ExitTimes, ExitState, ExitResult, ok, err, panicked, unspecified, LoopState, event_at, leave,
  try_fslat_exit,
}
use ebpf_ldms.Fslat.Stats.{take_snapshot, update_stats_locked}
use ebpf_ldms.Fslat.Exit.Prefixes.{
  SamePrefix, HasPrefixes, HasPrefixes-refl, HasPrefixes-trans, IsConfigured, set-KeepsPrefixes,
  sampled-SamePrefix, renewed-SamePrefix,
}
use ebpf_ldms.Fslat.Exit.Spec.{sampled, Visits, finish, missing, skip, sample, lose, send}
use ebpf_ldms.Fslat.Exit.Whole.{
  IsState, Exits, uncounted, unknown, failing, visited, checked, try_fslat_exit-Exits,
}

-- `configured` are the statistics with the prefixes.
module _ (filpop : List ℕ) (now : ℕ) (configured : List FsLatencyStats) where
  -- A record that reads as the message of a number, of the call that ends, with u64 numbers and a
  -- prefix that is configured.
  abbrev pub HasNumber : ℕ → List ℕ → Type 0
  HasNumber n bytes =
      (s : StatsSnapshot) × (rest : List ℕ) × (read_item 64 bytes
        ≡ some (message_item (event_at now n) s filpop (codes "ns"), rest))
      × IsItem (message_item (event_at now n) s filpop (codes "ns"))
      × IsConfigured configured s

  -- Records with consecutive numbers, from the first number up to, not including, the last.
  pub data Numbered : ℕ → List (List ℕ) → ℕ → Type 0 where
    none_left : {n : ℕ} → Numbered n [] n
    one_more :
        {n m : ℕ} {bytes : List ℕ} {more : List (List ℕ)}
        → HasNumber n bytes
        → Numbered (add64 n 1) more m
        → Numbered n (bytes ∷ more) m

  module _ (rings : RingBuf 1024) (cbor : Encoder) where
    -- The records that joined the ring.
    abbrev pub Joined : rings.Ring → ℕ → rings.Ring → ℕ → Type 0
    Joined ring n ring' m =
        (new : List (List ℕ)) × (rings.records ring' ≡ rings.records ring ++ new) × Numbered n new m

    none-Joined : (ring : rings.Ring) (n : ℕ) → Joined ring n ring n
    none-Joined ring n = ([], sym (append-nil (rings.records ring)), none_left)

    sent_configured :
        (ret : ℕ) (e : EntryRec) (idx : ℕ) (s : LoopState rings) (f : FsLatencyStats)
        → get_elem? s.stats idx ≡ some f
        → HasPrefixes s.stats configured
        → IsConfigured configured (take_snapshot (sampled now ret e f))
    unfolding take_snapshot update_stats_locked
    sent_configured ret e idx s f at has =
        let (g, at', same) = has idx f at in (idx, g, at', sym same.0, sym same.1)

    -- After a visit the statistics still have no other prefixes.
    still_configured :
        (idx : ℕ) (s : LoopState rings) (f g : FsLatencyStats)
        → get_elem? s.stats idx ≡ some f
        → SamePrefix f g
        → HasPrefixes s.stats configured
        → HasPrefixes (set s.stats idx g) configured
    still_configured idx s f g at same has =
        HasPrefixes-trans (set s.stats idx g) s.stats configured
          (set-KeepsPrefixes s.stats idx f g at same).1 has

    pub Visits-Joined :
        (ret : ℕ) (e : EntryRec) (n idx : ℕ) (s t : LoopState rings)
        → HasPrefixes s.stats configured
        → Visits rings cbor filpop now ret e n idx s t
        → Joined s.ring s.seq t.ring t.seq
    Visits-Joined ret e n idx s t has finish = none-Joined s.ring s.seq
    Visits-Joined ret e n idx s t has (missing at) = none-Joined s.ring s.seq
    Visits-Joined ret e n idx s t has (skip at m v) = Visits-Joined ret e _ _ s t has v
    Visits-Joined ret e n idx s t has (sample {f} at m d v) =
        Visits-Joined ret e _ _ _ t
          (still_configured idx s f _ at (sampled-SamePrefix now ret e f) has) v
    Visits-Joined ret e n idx s t has (lose at m d r) = none-Joined s.ring s.seq
    Visits-Joined ret e n idx s t has (send {f} at m d sent v) =
        let (new, records, numbers) =
          Visits-Joined ret e _ _ _ t
            (still_configured idx s f _ at (renewed-SamePrefix now ret e f) has) v in
        (
          sent.bytes ∷ new,
          records
              ∙ (ap (λ l. l ++ new) sent.records
                  ∙ append_assoc (rings.records s.ring) (sent.bytes ∷ []) new),
          one_more (_, sent.rest, sent.reads, sent.words, sent_configured ret e idx s f at has)
              numbers,
        )

pub set_first :
    (xs : List ℕ) (v w : ℕ) → get_elem? xs 0 ≡ some v → get_elem? (set xs 0 w) 0 ≡ some w
set_first [] v w e = cc
set_first (x ∷ xs) v w e = refl

module _ (helpers : Helpers) (h : HashMap ℕ ℕ) (lru : LruHashMap PidTgid EntryRec) (cbor : Encoder)
    (rings : RingBuf 1024) where
  -- What holds of the maps after an exit that neither panics nor is undefined.
  abbrev pub After :
      ExitResult helpers h lru cbor rings → (ExitState helpers h lru cbor rings → Type 0) → Type 0
  After (ok s) P = P s
  After (err s) P = P s
  After panicked P = ⊥
  After unspecified P = ⊥

  pub numbers_of :
      (filpop : List ℕ) (times : ExitTimes) (pid_tgid : PidTgid) (ret : ℕ)
      (s : ExitState helpers h lru cbor rings) (n : ℕ) (r : ExitResult helpers h lru cbor rings)
      → get_elem? s.counter 0 ≡ some n
      → Exits helpers h lru cbor rings filpop times pid_tgid ret
          (checked helpers h lru cbor rings times.reset s)
          r
      → After r (λ s'.
        (m : ℕ) × (get_elem? s'.counter 0 ≡ some m)
        × Joined filpop times.now s.stats rings cbor s.ring n s'.ring m)
  unfolding leave
  numbers_of filpop times pid_tgid ret s n r c (uncounted c') = cc
  numbers_of filpop times pid_tgid ret s n r c (unknown c' g) =
      (n, c, none-Joined filpop times.now s.stats rings cbor s.ring n)
  numbers_of filpop times pid_tgid ret s n r c (failing c' g neg) =
      (n, c, none-Joined filpop times.now s.stats rings cbor s.ring n)
  numbers_of filpop times pid_tgid ret s n r c (visited {seq} {e} {t} c' g pos v all us) =
      let same : n ≡ seq = some_injective n seq (sym c ∙ c') in
      (
        t.seq,
        set_first s.counter n t.seq c,
        subst (λ k. Joined filpop times.now s.stats rings cbor s.ring k t.ring t.seq) (sym same)
            (Visits-Joined filpop times.now s.stats rings cbor ret e 8 0 _ t
              (HasPrefixes-refl s.stats) v),
      )

  -- On well-formed maps, with a name of at most 500 bytes and u64 numbers, the records that the end
  -- of a call puts behind those in the ring are messages that a reader of CBOR gets back, numbered
  -- consecutively (modulo 2 ^ 64) from the number in the counter on, and the counter holds the
  -- number of the message to come.
  try_fslat_exit-Numbered :
      (filpop : List ℕ) (times : ExitTimes) (pid_tgid : PidTgid) (ret : ℕ)
      (s : ExitState helpers h lru cbor rings) (n : ℕ)
      → IsState helpers h lru cbor rings s
      → length filpop ≤ 500
      → IsU64 times.now
      → IsU64 ret
      → get_elem? s.counter 0 ≡ some n
      → After (try_fslat_exit helpers h lru cbor rings filpop times pid_tgid ret s) (λ s'.
        (m : ℕ) × (get_elem? s'.counter 0 ≡ some m)
        × Joined filpop times.now s.stats rings cbor s.ring n s'.ring m)
  try_fslat_exit-Numbered filpop times pid_tgid ret s n w short un ur c =
      numbers_of filpop times pid_tgid ret s n _ c
        (try_fslat_exit-Exits helpers h lru cbor rings filpop times pid_tgid ret s w short un ur)
