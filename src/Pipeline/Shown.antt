-- ===== src/Pipeline/Shown.antt =====
-- What the daemon sees of a message of producers/fslatency/vfslatency-common/src/lib.rs.
use ebpf_ldms.Prelude.{
  ℕ, ◌≡◌, refl, ◌∙◌, ap, subst, sym, List, Bool, true, false, ◌&&◌, some, take, codes, min, IsU64,
}
use ebpf_ldms.Fslat.Maps.{EventFields, StatsSnapshot, agg_interval}
use ebpf_ldms.Fslat.Message.Cbor.{Pairs, uint, text, pairs, IsItem}
use ebpf_ldms.Fslat.Message.Put.{message_item, metrics_item}
use ebpf_ldms.Daemon.Ring.{Json}
use ebpf_ldms.Pipeline.Utf8.{is_utf8}
use ebpf_ldms.Pipeline.Crates.{Crates, all_utf8, text_keys, find}

-- The prefix in a message.
abbrev pub prefix_of : StatsSnapshot → List ℕ
prefix_of s = take (min s.pathlen 32) s.path_prefix

pub message_keys :
    (e : EventFields) (s : StatsSnapshot) (filpop unit : List ℕ)
    → text_keys (message_item e s filpop unit) ≡ true
unfolding text_keys message_item metrics_item
message_keys e s filpop unit = refl

and_true : (b : Bool) → (b && true) ≡ b
and_true true = refl
and_true false = refl

-- Of the texts of a message only its prefix may be no UTF-8, if the others are given so.
pub message_utf8 :
    (e : EventFields) (s : StatsSnapshot) (filpop unit : List ℕ)
    → is_utf8 e.id ≡ true
    → is_utf8 filpop ≡ true
    → is_utf8 unit ≡ true
    → all_utf8 (message_item e s filpop unit) ≡ is_utf8 (prefix_of s)
unfolding all_utf8 message_item metrics_item
message_utf8 e s filpop unit i f u = rw (i, f, u, and_true)

module _ (json : Json) where
  abbrev IsNumber : json.Value → ℕ → Type 0
  IsNumber v n = json.as_u64 v ≡ some n

  abbrev IsString : json.Value → List ℕ → Type 0
  IsString v t = json.as_str v ≡ some t

  -- The JSON value gives the metrics of a window.
  pub record ShowsMetrics (s : StatsSnapshot) (v : json.Value) : Type 0 where
    pub min_latency : IsNumber (json.index v (codes "min_latency")) s.min
    pub max_latency : IsNumber (json.index v (codes "max_latency")) s.max
    pub total_latency : IsNumber (json.index v (codes "total_latency")) s.total_lat
    pub total_bytes : IsNumber (json.index v (codes "total_bytes")) s.total_bytes
    pub count_samples : IsNumber (json.index v (codes "count_samples")) s.count
    pub aggregation_time : IsNumber (json.index v (codes "aggregation_time")) agg_interval

  -- The JSON value gives the message, but for its time.
  pub record Shows (e : EventFields) (s : StatsSnapshot) (filpop unit : List ℕ) (v : json.Value)
      : Type 0 where
    pub id : IsString (json.index v (codes "id")) e.id
    pub opname : IsString (json.index v (codes "opname")) filpop
    pub sequence : IsNumber (json.index v (codes "sequence")) e.seq
    pub unit_name : IsString (json.index v (codes "unit")) unit
    pub metrics : ShowsMetrics s (json.index v (codes "metrics"))
    pub path_prefix : IsString (json.index v (codes "path_prefix")) (prefix_of s)

  module _ (crates : Crates json) (e : EventFields) (s : StatsSnapshot) (filpop unit : List ℕ) where
    abbrev pub message_value : json.Value
    message_value = crates.value_of (message_item e s filpop unit)

    index-IsNumber :
        (ps : Pairs) (name : List ℕ) (n : ℕ)
        → IsU64 n
        → find ps name ≡ some (uint n)
        → IsNumber (json.index (crates.value_of (pairs ps)) name) n
    index-IsNumber ps name n u at =
        ap json.as_u64 (crates.object ps name (uint n) at) ∙ crates.number n u

    index-IsString :
        (ps : Pairs) (name t : List ℕ)
        → find ps name ≡ some (text t)
        → IsString (json.index (crates.value_of (pairs ps)) name) t
    index-IsString ps name t at =
        ap json.as_str (crates.object ps name (text t) at) ∙ crates.string t

    shows_metrics : IsItem (metrics_item s) → ShowsMetrics s (crates.value_of (metrics_item s))
    unfolding metrics_item find
    shows_metrics (_, lo, (_, hi, (_, lat, (_, bytes, (_, count, (_, interval, _)))))) = record {
      min_latency = index-IsNumber _ _ _ lo refl;
      max_latency = index-IsNumber _ _ _ hi refl;
      total_latency = index-IsNumber _ _ _ lat refl;
      total_bytes = index-IsNumber _ _ _ bytes refl;
      count_samples = index-IsNumber _ _ _ count refl;
      aggregation_time = index-IsNumber _ _ _ interval refl;
    }

    pub message_value-Shows :
        IsItem (message_item e s filpop unit) → Shows e s filpop unit message_value
    unfolding message_item metrics_item find
    message_value-Shows (_, _, (_, _, (_, _, (_, seq, (_, _, (_, metrics, _)))))) = record {
      id = index-IsString _ _ _ refl;
      opname = index-IsString _ _ _ refl;
      sequence = index-IsNumber _ _ _ seq refl;
      unit_name = index-IsString _ _ _ refl;
      metrics =
          subst (ShowsMetrics s) (sym (crates.object _ _ (metrics_item s) refl))
            (shows_metrics metrics);
      path_prefix = index-IsString _ _ _ refl;
    }

    -- Its time, and that both fields that the daemon asks for are there.
    pub record IsTimed : Type 0 where
      pub time : IsNumber (json.index message_value (codes "timestamp_monotonic")) e.monotonic
      pub timed : json.is_null (json.index message_value (codes "timestamp_monotonic")) ≡ false
      pub named : json.is_null (json.index message_value (codes "id")) ≡ false

    pub message_value-IsTimed : IsItem (message_item e s filpop unit) → IsTimed
    unfolding message_item metrics_item find
    message_value-IsTimed (_, _, (_, now, _)) = record {
      time = index-IsNumber _ _ _ now refl;
      timed =
          ap json.is_null (crates.object _ _ (uint e.monotonic) refl)
          ∙ crates.number_there e.monotonic;
      named = ap json.is_null (crates.object _ _ (text e.id) refl) ∙ crates.string_there e.id;
    }
