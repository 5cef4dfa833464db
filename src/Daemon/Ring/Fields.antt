-- ===== src/Daemon/Ring/Fields.antt =====
-- The fields that `ring_loop` of daemon/ebpf_ldms/src/main.rs adds to a message and takes from it.
use ebpf_ldms.Prelude.{
  ℕ, ◌≡◌, ◌≢◌, refl, ◌∙◌, inl, inr, List, Bool, true, false, ◌||◌, Option, some, none, Bool-cases,
  Option-cases, codes,
}
use ebpf_ldms.Daemon.Ring.{Json, Settings, Decorated, skipped, ready, decorate, unwrap_or}

or_false : (a b : Bool) → (a || b) ≡ false → (a ≡ false) × (b ≡ false)
or_false true b e = cc
or_false false b e = (refl, e)

or_true : (a b : Bool) → (a || b) ≡ true → ¬ ((a ≡ false) × (b ≡ false))
or_true true b e (f, g) = cc
or_true false b e (f, g) = cc

module _ (json : Json) (c : Settings json) where
  abbrev pub time_of : json.Value → Option json.Float
  time_of v = c.unix_time (unwrap_or (json.as_u64 (json.index v (codes "timestamp_monotonic"))) 0)

  -- The message that goes out for one that came in.
  pub record IsDecorated (v v' : json.Value) : Type 0 where
    pub hostname : json.index v' (codes "hostname") ≡ json.string c.hostname
    pub time : json.Float
    pub timed : time_of v ≡ some time
    pub timestamp : json.index v' (codes "timestamp") ≡ json.float time
    pub timestamp_monotonic : json.is_null (json.index v' (codes "timestamp_monotonic")) ≡ true
    pub others :
        (k : List ℕ)
        → k ≢ codes "hostname"
        → k ≢ codes "timestamp"
        → k ≢ codes "timestamp_monotonic"
        → json.index v' k ≡ json.index v k

  -- The message has both fields that the loop asks for.
  abbrev pub HasFields : json.Value → Type 0
  HasFields v =
      (json.is_null (json.index v (codes "id")) ≡ false)
      × (json.is_null (json.index v (codes "timestamp_monotonic")) ≡ false)

  pub data Decorates (v : json.Value) : Decorated json → Type 0 where
    lacking : ¬ HasFields v → Decorates v skipped
    untimed : HasFields v → time_of v ≡ none → Decorates v skipped
    complete :
        {v' : json.Value}
        → HasFields v
        → IsDecorated v v'
        → Decorates v (
            ready
              (unwrap_or (json.as_str (json.index v (codes "id"))) (codes "invalid id field"))
              v')

  decorate-IsDecorated :
      (v v1 v2 v3 : json.Value) (ts : json.Float)
      → json.insert v (codes "hostname") (json.string c.hostname) ≡ some v1
      → time_of v ≡ some ts
      → json.insert v1 (codes "timestamp") (json.float ts) ≡ some v2
      → json.remove v2 (codes "timestamp_monotonic") ≡ some v3
      → IsDecorated v v3
  decorate-IsDecorated v v1 v2 v3 ts e1 et e2 e3 = record {
    hostname =
        json.index-remove_ne v2 v3 _ _ e3 (λ e. cc)
        ∙ (json.index-insert_ne v1 v2 _ _ _ e2 (λ e. cc) ∙ json.index-insert_self v v1 _ _ e1);
    time = ts;
    timed = et;
    timestamp = json.index-remove_ne v2 v3 _ _ e3 (λ e. cc) ∙ json.index-insert_self v1 v2 _ _ e2;
    timestamp_monotonic = json.index-remove_self v2 v3 _ e3;
    others = λ k h t m.
        json.index-remove_ne v2 v3 k _ e3 m
        ∙ (json.index-insert_ne v1 v2 _ k _ e2 t ∙ json.index-insert_ne v v1 _ k _ e1 h);
  }

  -- A message without an id or a time, or whose time is before the epoch, is skipped. Any other one
  -- gets the host name and the time after the epoch, loses the time of the monotonic clock, and
  -- keeps all its other fields. No unwrap of the source panics.
  pub decorate-Decorates : (v : json.Value) → Decorates v (decorate json c v)
  unfolding decorate
  decorate-Decorates v =
      let id = json.index v (codes "id") in
      let lack = json.is_null id || json.is_null (json.index v (codes "timestamp_monotonic")) in
      elim (Bool-cases lack) [
        | inl e ↦ rw (decorate, e) (lacking (or_true _ _ e))
        | inr e ↦
            let has : HasFields v = or_false _ _ e in
            let named : json.is_null id ≡ false = has.0 in
            let (v1, e1) =
              json.insert_object v (json.string c.hostname) (codes "id") (codes "hostname") named in
            elim (Option-cases (time_of v)) [
              | inl et ↦ rw (decorate, e, e1, et) (untimed has et)
              | inr (ts, et) ↦
                  let still : json.is_null (json.index v1 (codes "id")) ≡ false =
                    rw (json.index-insert_ne v v1 _ (codes "id") _ e1 (λ f. cc)) named in
                  let (v2, e2) =
                    json.insert_object v1 (json.float ts) (codes "id") (codes "timestamp") still in
                  let still' : json.is_null (json.index v2 (codes "id")) ≡ false =
                    rw (json.index-insert_ne v1 v2 _ (codes "id") _ e2 (λ f. cc)) still in
                  let (v3, e3) =
                    json.remove_object v2 (codes "id") (codes "timestamp_monotonic") still' in
                  rw (decorate, e, e1, et, e2, e3)
                    (complete has (decorate-IsDecorated v v1 v2 v3 ts e1 et e2 e3))
            ]
      ]
