-- ===== src/Pipeline/Arriving.antt =====
-- What `ring_loop` of daemon/ebpf_ldms/src/main.rs does with a message of the programs of
-- producers/fslatency.
use ebpf_ldms.Prelude.{
  same_text, same_text_iff, ℕ, ◌≡◌, ◌≢◌, refl, sym, ap, ◌∙◌, subst, inl, inr, List, Bool, true,
  false, some, none, Bool-cases, some_injective, codes,
}
use mathlib.Core.Bool.{false≢true}
use ebpf_ldms.Fslat.Maps.{EventFields, StatsSnapshot}
use ebpf_ldms.Fslat.Message.Cbor.{read_item, IsItem}
use ebpf_ldms.Fslat.Message.Put.{message_item}
use ebpf_ldms.Daemon.Stream.{Ldms, SockStream, ldms_msg_publish}
use ebpf_ldms.Daemon.Ring.{
  Json, Burster, Settings, LoopState, Step, goes_on, ends, skipped, ready, admit, handle_item,
  unwrap_or,
}
use ebpf_ldms.Daemon.Ring.Fields.{Decorates, lacking, untimed, complete, time_of}
use ebpf_ldms.Daemon.Ring.Messages.{
  Reads, Handles, unreadable, unconverted, left_out, limited, published, unprinted, refused,
  handle_item-Handles,
}
use ebpf_ldms.Pipeline.Utf8.{is_utf8}
use ebpf_ldms.Pipeline.Crates.{Crates}
use ebpf_ldms.Pipeline.Shown.{
  prefix_of, ShowsMetrics, message_keys, message_utf8, Shows, message_value, message_value-Shows,
  message_value-IsTimed,
}

module _ (json : Json) (crates : Crates json) (c : Settings json) (e : EventFields)
    (s : StatsSnapshot) (filpop unit : List ℕ) where
  -- The JSON value that goes out for a message.
  pub record IsPublished (v : json.Value) : Type 0 where
    pub shows : Shows json e s filpop unit v
    pub hostname : json.index v (codes "hostname") ≡ json.string c.hostname
    pub time : json.Float
    pub timed : c.unix_time e.monotonic ≡ some time
    pub timestamp : json.index v (codes "timestamp") ≡ json.float time
    pub timestamp_monotonic : json.is_null (json.index v (codes "timestamp_monotonic")) ≡ true

  abbrev value : json.Value
  value = message_value json crates e s filpop unit

  -- A value that agrees with another one on the keys that the daemon leaves alone.
  apart : (j k : List ℕ) → same_text j k ≡ false → j ≢ k
  apart j k differ same = absurd (false≢true (sym differ ∙ (same_text_iff j k).1 same))

  Shows-others :
      (v v' : json.Value)
      → ((k : List ℕ)
          → k ≢ codes "hostname"
          → k ≢ codes "timestamp"
          → k ≢ codes "timestamp_monotonic"
          → json.index v' k ≡ json.index v k)
      → Shows json e s filpop unit v
      → Shows json e s filpop unit v'
  unfolding same_text
  Shows-others v v' same shows = record {
    id = kept (codes "id") (λ x. json.as_str x ≡ some e.id) refl refl refl shows.id;
    opname = kept (codes "opname") (λ x. json.as_str x ≡ some filpop) refl refl refl shows.opname;
    sequence =
        kept (codes "sequence") (λ x. json.as_u64 x ≡ some e.seq) refl refl refl shows.sequence;
    unit_name = kept (codes "unit") (λ x. json.as_str x ≡ some unit) refl refl refl shows.unit_name;
    metrics = kept (codes "metrics") (ShowsMetrics json s) refl refl refl shows.metrics;
    path_prefix =
        kept (codes "path_prefix") (λ x. json.as_str x ≡ some (prefix_of s)) refl refl refl
          shows.path_prefix;
  }
    where
      kept :
          (k : List ℕ) (P : json.Value → Type 0)
          → same_text k (codes "hostname") ≡ false
          → same_text k (codes "timestamp") ≡ false
          → same_text k (codes "timestamp_monotonic") ≡ false
          → P (json.index v k)
          → P (json.index v' k)
      kept k P h t m = subst P (sym (same k (apart k _ h) (apart k _ t) (apart k _ m)))

  module _ (words : IsItem (message_item e s filpop unit)) where
    open (message_value-IsTimed json crates e s filpop unit words) use {time, timed, named}

    times : time_of json c value ≡ c.unix_time e.monotonic
    unfolding unwrap_or
    times = ap (λ o. c.unix_time (unwrap_or o 0)) time

    skipped_lem : Decorates json c value skipped → c.unix_time e.monotonic ≡ none
    skipped_lem (lacking l) = absurd (l (named, timed))
    skipped_lem (untimed has u) = sym times ∙ u

    ready_lem :
        (v' : json.Value) (id : List ℕ)
        → Decorates json c value (ready id v')
        → (id ≡ e.id) × IsPublished v'
    unfolding unwrap_or
    ready_lem v' id (complete has d) =
        let shown = message_value-Shows json crates e s filpop unit words in
        (
          ap (λ o. unwrap_or o (codes "invalid id field")) shown.id,
          record {
            shows = Shows-others value v' d.others shown;
            hostname = d.hostname;
            time = d.time;
            timed = sym times ∙ d.timed;
            timestamp = d.timestamp;
            timestamp_monotonic = d.timestamp_monotonic;
          },
        )

  module _ (burster : Burster) (ldms : Ldms) (stream : SockStream ldms) (now : ℕ)
      (t : LoopState json burster ldms) where
    abbrev admitted : List ℕ → Bool
    admitted id = (admit json burster c now id t.tokens).0

    -- The state after a message has counted against the limit of its producer.
    abbrev counted : List ℕ → ldms.World → LoopState json burster ldms
    counted id w = record { tokens = (admit json burster c now id t.tokens).1; world = w }

    -- The outcomes for a message: its prefix is no UTF-8, its time is before the epoch, its producer
    -- has met its limit, or it is published as a value that shows it; or the loop ends at an error.
    pub data Arrives : Step json burster ldms → Type 0 where
      garbled : is_utf8 (prefix_of s) ≡ false → Arrives (goes_on t)
      early : c.unix_time e.monotonic ≡ none → Arrives (goes_on t)
      held_back :
          {time : json.Float}
          → c.unix_time e.monotonic ≡ some time
          → admitted e.id ≡ false
          → Arrives (goes_on (counted e.id t.world))
      went_out :
          {v : json.Value} {msg : List ℕ} {world : ldms.World}
          → is_utf8 (prefix_of s) ≡ true
          → IsPublished v
          → admitted e.id ≡ true
          → json.to_string v ≡ some msg
          → ldms_msg_publish ldms stream msg t.world ≡ (true, world)
          → Arrives (goes_on (counted e.id world))
      not_printed :
          {v : json.Value}
          → IsPublished v
          → admitted e.id ≡ true
          → json.to_string v ≡ none
          → Arrives (ends (counted e.id t.world))
      not_taken :
          {v : json.Value} {msg : List ℕ} {world : ldms.World}
          → IsPublished v
          → admitted e.id ≡ true
          → json.to_string v ≡ some msg
          → ldms_msg_publish ldms stream msg t.world ≡ (false, world)
          → Arrives (ends (counted e.id world))

    module _ (words : IsItem (message_item e s filpop unit)) (good : is_utf8 (prefix_of s) ≡ true)
        (bytes : List ℕ) (cbor : json.Cbor) (is : json.from_reader bytes ≡ some cbor)
        (to : json.to_value cbor ≡ some value) where
      same_value : (v : json.Value) → Reads json burster ldms c stream bytes v → v ≡ value
      same_value v (cbor', is', to') =
          some_injective v value
            (sym to' ∙ (ap json.to_value (some_injective cbor' cbor (sym is' ∙ is)) ∙ to))

      ready_same :
          (v v' : json.Value) (id : List ℕ)
          → Reads json burster ldms c stream bytes v
          → Decorates json c v (ready id v')
          → (id ≡ e.id) × IsPublished v'
      ready_same v v' id reads d =
          ready_lem words v' id
            (subst (λ x. Decorates json c x (ready id v')) (same_value v reads) d)

      Handles-Arrives :
          (r : Step json burster ldms)
          → Handles json burster ldms c stream bytes now t r
          → Arrives r
      Handles-Arrives r (unreadable refused') = cc
      Handles-Arrives r (unconverted is' refused') = cc
      Handles-Arrives r (left_out {v} reads d) =
          early (skipped_lem words (subst (λ x. Decorates json c x skipped) (same_value v reads) d))
      Handles-Arrives r (limited {v} {v'} {id} reads d held) =
          let (same, out) = ready_same v v' id reads d in
          subst (λ x. admitted x ≡ false → Arrives (goes_on (counted x t.world))) (sym same)
            (held_back out.timed) held
      Handles-Arrives r (published {v} {v'} {id} {world} reads d free print taken) =
          let (same, out) = ready_same v v' id reads d in
          subst (λ x. admitted x ≡ true → Arrives (goes_on (counted x world))) (sym same)
            (λ f. went_out good out f print taken) free
      Handles-Arrives r (unprinted {v} {v'} {id} reads d free print) =
          let (same, out) = ready_same v v' id reads d in
          subst (λ x. admitted x ≡ true → Arrives (ends (counted x t.world))) (sym same)
            (λ f. not_printed out f print) free
      Handles-Arrives r (refused {v} {v'} {id} {world} reads d free print taken) =
          let (same, out) = ready_same v v' id reads d in
          subst (λ x. admitted x ≡ true → Arrives (ends (counted x world))) (sym same)
            (λ f. not_taken out f print taken) free

    -- A record that a reader of CBOR takes for a message of the programs is left out only if its
    -- prefix is no UTF-8 or its time is before the epoch. Else it counts against the limit of its
    -- producer, which holds it back or lets a value that shows the whole message go out.
    pub handle_item-Arrives :
        (bytes rest : List ℕ)
        → read_item 64 bytes ≡ some (message_item e s filpop unit, rest)
        → IsItem (message_item e s filpop unit)
        → is_utf8 e.id ≡ true
        → is_utf8 filpop ≡ true
        → is_utf8 unit ≡ true
        → Arrives (handle_item json burster ldms c stream bytes now t)
    unfolding handle_item
    handle_item-Arrives bytes rest reads words i f u =
        let texts = message_utf8 e s filpop unit i f u in
        elim (Bool-cases (is_utf8 (prefix_of s))) [
          | inr bad ↦
              rw (handle_item, crates.refuses bytes rest _ reads (texts ∙ bad)) (garbled bad)
          | inl good ↦
              let (cbor, is, to) =
                crates.reads bytes rest _ reads (texts ∙ good) (message_keys e s filpop unit) in
              Handles-Arrives words good bytes cbor is to _
                (handle_item-Handles json burster ldms c stream bytes now t)
        ]
