-- ===== src/Daemon/Ring.antt =====
-- The message loop of the daemon: `ring_loop` of daemon/ebpf_ldms/src/main.rs.
pub mod Fields
pub mod Limits
pub mod Messages
pub mod Serving
use ebpf_ldms.Prelude.{
  same_text, ℕ, ◌*◌, ◌%◌, ◌^◌, ◌≡◌, ◌≢◌, List, [], ◌∷◌, Bool, true, false, ◌||◌, Option, some, none,
  if◌then◌else◌, codes,
}
use ebpf_ldms.Daemon.Clock.{TimeOffset, current_mono_realtime_offset}
use ebpf_ldms.Daemon.Stream.{Ldms, SockStream, ldms_msg_publish}

-- The crates ciborium and serde_json, as the loop calls them. Indexing gives null where there is no
-- such key or no object; `insert` and `remove` are `none` where there is no object.
pub record Json : Type 1 where
  pub Cbor : Type 0
  pub Value : Type 0
  pub Float : Type 0
  pub from_reader : List ℕ → Option Cbor
  pub to_value : Cbor → Option Value
  pub to_string : Value → Option (List ℕ)
  pub is_null : Value → Bool
  pub index : Value → List ℕ → Value
  pub as_str : Value → Option (List ℕ)
  pub as_u64 : Value → Option ℕ
  pub string : List ℕ → Value
  pub float : Float → Value
  pub insert : Value → List ℕ → Value → Option Value
  pub remove : Value → List ℕ → Option Value
  pub insert_object :
      (v w : Value) (j k : List ℕ)
      → is_null (index v j) ≡ false
      → (v' : Value) × (insert v k w ≡ some v')
  pub remove_object :
      (v : Value) (j k : List ℕ)
      → is_null (index v j) ≡ false
      → (v' : Value) × (remove v k ≡ some v')
  pub index-insert_self : (v v' w : Value) (k : List ℕ) → insert v k w ≡ some v' → index v' k ≡ w
  pub index-insert_ne :
      (v v' w : Value) (j k : List ℕ) → insert v k w ≡ some v' → j ≢ k → index v' j ≡ index v j
  pub index-remove_self :
      (v v' : Value) (k : List ℕ) → remove v k ≡ some v' → is_null (index v' k) ≡ true
  pub index-remove_ne :
      (v v' : Value) (j k : List ℕ) → remove v k ≡ some v' → j ≢ k → index v' j ≡ index v j

-- The rate limiter of the crate burster: a limit, a window in milliseconds, and one try at a time.
pub record Burster : Type 1 where
  pub Limiter : Type 0
  pub sliding_window_counter : ℕ → ℕ → Limiter
  pub try_consume_one : ℕ → Limiter → Bool × Limiter

-- What the system answers as the loop starts: the readings of the clocks, and whether `Async::new`
-- registers the ring.
pub record Opening : Type 0 where
  pub monotonic : Option ℕ
  pub realtime : ℕ
  pub registered : Bool

unfoldable pub unwrap_or {ℓ} : {A : Type ℓ} → Option A → A → A
unwrap_or none a = a
unwrap_or (some b) a = b

module _ (json : Json) where
  -- What the loop is started with. `unix_time` is the time of a monotonic clock's reading after the
  -- epoch, in seconds, or none before it.
  pub record Settings : Type 0 where
    pub msglimit : ℕ
    pub interval : ℕ
    pub hostname : List ℕ
    pub unix_time : ℕ → Option json.Float

  -- The unwrap of these panics where there is no object: `none`.
  abbrev pub map_insert_key : json.Value → List ℕ → json.Value → Option json.Value
  map_insert_key obj key value = json.insert obj key value

  abbrev pub map_remove_key : json.Value → List ℕ → Option json.Value
  map_remove_key obj key = json.remove obj key

  -- A message without its fields is skipped. `broken` is a panic of an unwrap.
  pub data Decorated : Type 0 where
    skipped broken : Decorated
    ready : List ℕ → json.Value → Decorated

  unfoldable pub decorate : Settings → json.Value → Decorated
  unfolding unwrap_or
  decorate c v =
      let id = json.index v (codes "id") in
      let timestamp_monotonic = json.index v (codes "timestamp_monotonic") in
      let time = c.unix_time (unwrap_or (json.as_u64 timestamp_monotonic) 0) in
      if json.is_null id || json.is_null timestamp_monotonic
      then skipped
      else elim (map_insert_key v (codes "hostname") (json.string c.hostname)) [
        | none ↦ broken
        | some v1 ↦ elim time [
          | none ↦ skipped
          | some ts ↦ elim (map_insert_key v1 (codes "timestamp") (json.float ts)) [
            | none ↦ broken
            | some v2 ↦ elim (map_remove_key v2 (codes "timestamp_monotonic")) [
              | none ↦ broken
              | some v3 ↦ ready (unwrap_or (json.as_str id) (codes "invalid id field")) v3
            ]
          ]
        ]
      ]

  module _ (burster : Burster) where
    abbrev pub Tokens : Type 0
    Tokens = List ℕ → Option burster.Limiter

    unfoldable pub put_token : Tokens → List ℕ → burster.Limiter → Tokens
    unfolding same_text
    put_token tokens id l j = if same_text j id then some l else tokens j

    -- The limiter of a producer that has sent nothing yet. The product wraps.
    abbrev pub fresh : Settings → burster.Limiter
    fresh c = burster.sliding_window_counter c.msglimit (c.interval * 1000 % 2 ^ 64)

    -- `entry(id).or_insert(..)`.
    unfoldable pub or_insert : Settings → List ℕ → Tokens → Tokens
    unfolding put_token
    or_insert c id tokens = elim (tokens id) [
      | none ↦ put_token tokens id (fresh c)
      | some l ↦ tokens
    ]

    -- Whether a message may pass at this time, and the limiters after it.
    unfoldable pub admit : Settings → ℕ → List ℕ → Tokens → Bool × Tokens
    unfolding or_insert
    admit c now id tokens0 =
        let tokens = or_insert c id tokens0 in
        elim (tokens id) [
          | none ↦ (true, put_token tokens id (fresh c))
          | some l ↦
              let (passes, l') = burster.try_consume_one now l in (passes, put_token tokens id l')
        ]

    module _ (ldms : Ldms) where
      pub record LoopState : Type 0 where
        pub tokens : Tokens
        pub world : ldms.World

      -- The loop goes on, ends with an error, or panics.
      pub data Step : Type 0 where
        goes_on ends panics : LoopState → Step

      unfoldable pub deliver :
          Settings → SockStream ldms → ℕ → List ℕ → json.Value → LoopState → Step
      unfolding admit
      deliver c stream now id v s =
          let (passes, tokens) = admit c now id s.tokens in
          if passes
          then elim (json.to_string v) [
            | none ↦ ends (record s { tokens = tokens })
            | some msg ↦
                let (sent, world) = ldms_msg_publish ldms stream msg s.world in
                if sent
                then goes_on (record { tokens = tokens; world = world })
                else ends (record { tokens = tokens; world = world })
          ]
          else goes_on (record s { tokens = tokens })

      unfoldable pub handle_item : Settings → SockStream ldms → List ℕ → ℕ → LoopState → Step
      unfolding decorate deliver
      handle_item c stream item now s = elim (json.from_reader item) [
        | none ↦ goes_on s
        | some cbor ↦ elim (json.to_value cbor) [
          | none ↦ goes_on s
          | some v ↦ elim (decorate c v) [
            | skipped ↦ goes_on s
            | broken ↦ panics s
            | ready id v' ↦ deliver c stream now id v' s
          ]
        ]
      ]

      -- The records of the ring in their order, each with the time at which it is handled.
      unfoldable pub serve_items : Settings → SockStream ldms → List (List ℕ × ℕ) → LoopState → Step
      unfolding handle_item
      serve_items c stream [] s = goes_on s
      serve_items c stream ((item, now) ∷ items) s = elim (handle_item c stream item now s) [
        | goes_on t ↦ serve_items c stream items t
        | ends t ↦ ends t
        | panics t ↦ panics t
      ]

      -- The start of the loop: the clocks are read, which may panic, and the ring is made
      -- asynchronous, which may fail.
      unfoldable pub ring_loop :
          (TimeOffset → Settings) → SockStream ldms → Opening → List (List ℕ × ℕ) → LoopState → Step
      unfolding serve_items current_mono_realtime_offset
      ring_loop settings stream opening items s =
          elim (current_mono_realtime_offset opening.monotonic opening.realtime) [
            | none ↦ panics s
            | some offset ↦
                if opening.registered then serve_items (settings offset) stream items s else ends s
          ]
