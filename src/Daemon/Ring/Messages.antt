-- ===== src/Daemon/Ring/Messages.antt =====
-- What `ring_loop` of daemon/ebpf_ldms/src/main.rs does with each record of the ring.
use ebpf_ldms.Prelude.{
  ℕ, ◌≡◌, refl, ap, inl, inr, List, [], ◌∷◌, Bool, true, false, some, none, Bool-cases,
  Option-cases,
}
use ebpf_ldms.Daemon.Stream.{Ldms, SockStream, ldms_msg_publish}
use ebpf_ldms.Daemon.Ring.{
  Json, Burster, Settings, Decorated, skipped, broken, ready, decorate, admit, LoopState, Step,
  goes_on, ends, panics, deliver, handle_item, serve_items,
}
use ebpf_ldms.Daemon.Ring.Fields.{Decorates, decorate-Decorates}

module _ (json : Json) (burster : Burster) (ldms : Ldms) (c : Settings json)
    (stream : SockStream ldms) where
  -- The JSON value of a record.
  abbrev pub Reads : List ℕ → json.Value → Type 0
  Reads item v =
      (cbor : json.Cbor) × (json.from_reader item ≡ some cbor) × (json.to_value cbor ≡ some v)

  -- The outcomes for a record: it is left out, held back by the limit of its producer, or published
  -- with its fields changed; or the loop ends at an error.
  pub data Handles (item : List ℕ) (now : ℕ) (s : LoopState json burster ldms)
      : Step json burster ldms → Type 0 where
    unreadable : json.from_reader item ≡ none → Handles item now s (goes_on s)
    unconverted :
        {cbor : json.Cbor}
        → json.from_reader item ≡ some cbor
        → json.to_value cbor ≡ none
        → Handles item now s (goes_on s)
    left_out :
        {v : json.Value}
        → Reads item v
        → Decorates json c v skipped
        → Handles item now s (goes_on s)
    limited :
        {v v' : json.Value} {id : List ℕ}
        → Reads item v
        → Decorates json c v (ready id v')
        → (admit json burster c now id s.tokens).0 ≡ false
        → Handles item now s
            (goes_on (record s { tokens = (admit json burster c now id s.tokens).1 }))
    published :
        {v v' : json.Value} {id msg : List ℕ} {world : ldms.World}
        → Reads item v
        → Decorates json c v (ready id v')
        → (admit json burster c now id s.tokens).0 ≡ true
        → json.to_string v' ≡ some msg
        → ldms_msg_publish ldms stream msg s.world ≡ (true, world)
        → Handles item now s
            (goes_on (record { tokens = (admit json burster c now id s.tokens).1; world = world }))
    unprinted :
        {v v' : json.Value} {id : List ℕ}
        → Reads item v
        → Decorates json c v (ready id v')
        → (admit json burster c now id s.tokens).0 ≡ true
        → json.to_string v' ≡ none
        → Handles item now s (ends (record s { tokens = (admit json burster c now id s.tokens).1 }))
    refused :
        {v v' : json.Value} {id msg : List ℕ} {world : ldms.World}
        → Reads item v
        → Decorates json c v (ready id v')
        → (admit json burster c now id s.tokens).0 ≡ true
        → json.to_string v' ≡ some msg
        → ldms_msg_publish ldms stream msg s.world ≡ (false, world)
        → Handles item now s
            (ends (record { tokens = (admit json burster c now id s.tokens).1; world = world }))

  deliver-Handles :
      (item : List ℕ) (now : ℕ) (s : LoopState json burster ldms) (v v' : json.Value) (id : List ℕ)
      → Reads item v
      → Decorates json c v (ready id v')
      → Handles item now s (deliver json burster ldms c stream now id v' s)
  unfolding deliver
  deliver-Handles item now s v v' id reads d =
      elim (Bool-cases (admit json burster c now id s.tokens).0) [
        | inr held ↦ rw (deliver, held) (limited reads d held)
        | inl free ↦ elim (Option-cases (json.to_string v')) [
          | inl e ↦ rw (deliver, free, e) (unprinted reads d free e)
          | inr (msg, e) ↦
              let sent = ldms_msg_publish ldms stream msg s.world in
              elim (Bool-cases sent.0) [
                | inl f ↦
                    rw (deliver, free, e, f)
                      (published reads d free e (ap (λ (b : Bool). (b, sent.1)) f))
                | inr f ↦
                    rw (deliver, free, e, f)
                      (refused reads d free e (ap (λ (b : Bool). (b, sent.1)) f))
              ]
        ]
      ]

  decorated_item :
      (item : List ℕ) (now : ℕ) (s : LoopState json burster ldms) (v : json.Value)
      → Reads item v
      → (r : Decorated json) → decorate json c v ≡ r
      → Decorates json c v r
      → Handles item now s (handle_item json burster ldms c stream item now s)
  unfolding handle_item
  decorated_item item now s v (cbor, e, f) skipped g d =
      rw (handle_item, e, f, g) (left_out (cbor, e, f) d)
  decorated_item item now s v (cbor, e, f) broken g d = elim d [ ]
  decorated_item item now s v (cbor, e, f) (ready id v') g d =
      rw (handle_item, e, f, g) (deliver-Handles item now s v v' id (cbor, e, f) d)

  pub handle_item-Handles :
      (item : List ℕ) (now : ℕ) (s : LoopState json burster ldms)
      → Handles item now s (handle_item json burster ldms c stream item now s)
  unfolding handle_item
  handle_item-Handles item now s = elim (Option-cases (json.from_reader item)) [
    | inl e ↦ rw (handle_item, e) (unreadable e)
    | inr (cbor, e) ↦ elim (Option-cases (json.to_value cbor)) [
      | inl f ↦ rw (handle_item, e, f) (unconverted e f)
      | inr (v, f) ↦ decorated_item item now s v (cbor, e, f) _ refl (decorate-Decorates json c v)
    ]
  ]

  -- The records one after another, up to the first error.
  pub data Runs
      : List (List ℕ × ℕ) → LoopState json burster ldms → Step json burster ldms → Type 0 where
    drained : {s : LoopState json burster ldms} → Runs [] s (goes_on s)
    handled :
        {item : List ℕ} {now : ℕ} {items : List (List ℕ × ℕ)} {s t : LoopState json burster ldms}
        {r : Step json burster ldms}
        → Handles item now s (goes_on t)
        → Runs items t r
        → Runs ((item, now) ∷ items) s r
    ended :
        {item : List ℕ} {now : ℕ} {items : List (List ℕ × ℕ)} {s t : LoopState json burster ldms}
        → Handles item now s (ends t)
        → Runs ((item, now) ∷ items) s (ends t)

  pub Runs-total :
      (items : List (List ℕ × ℕ)) (s u : LoopState json burster ldms) → ¬ Runs items s (panics u)
  Runs-total [] s u runs = elim runs [ ]
  Runs-total ((item, now) ∷ items) s u (handled {t} h runs) = Runs-total items t u runs

  run_first :
      (item : List ℕ) (now : ℕ) (items : List (List ℕ × ℕ)) (s : LoopState json burster ldms)
      (r : Step json burster ldms)
      → handle_item json burster ldms c stream item now s ≡ r
      → Handles item now s r
      → ((t : LoopState json burster ldms)
          → Runs items t (serve_items json burster ldms c stream items t))
      → Runs
          ((item, now) ∷ items)
          s
          (serve_items json burster ldms c stream ((item, now) ∷ items) s)
  unfolding serve_items
  run_first item now items s (goes_on t) e h go = rw (serve_items, e) (handled h (go t))
  run_first item now items s (ends t) e h go = rw (serve_items, e) (ended h)
  run_first item now items s (panics t) e h go = elim h [ ]

  -- The loop handles the records in their order, and no unwrap of it panics. A record that cannot
  -- be read, or whose message lacks its fields or its time, is left out. Any other message counts
  -- against the limit of its producer; it is held back by that limit, or published once with its
  -- fields changed. The first error of the printing or the publishing ends the loop.
  pub serve_items-Runs :
      (items : List (List ℕ × ℕ)) (s : LoopState json burster ldms)
      → Runs items s (serve_items json burster ldms c stream items s)
  unfolding serve_items
  serve_items-Runs [] s = drained
  serve_items-Runs ((item, now) ∷ items) s =
      run_first item now items s _ refl (handle_item-Handles item now s) (serve_items-Runs items)
