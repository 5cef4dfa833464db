-- ===== src/Daemon/RingRuns.antt =====
-- The message loop of the daemon on a concrete record, with values that are functions of the key.
use ebpf_ldms.Prelude.{
  same_text_iff, same_text, ℕ, zero, suc, ◌≡◌, ◌≢◌, refl, some_injective, List, [], ◌∷◌, Bool, true,
  false, Option, some, none, if◌then◌else◌, Bool-cases, inl, inr, subst, ap, codes,
}
use ebpf_ldms.Daemon.Tests.{recorder}
use ebpf_ldms.Daemon.Ring.{Json, Burster, Settings, Opening, LoopState, admit}
use ebpf_ldms.Daemon.Ring.Limits.{met, admit_lem}

pub data Value : Type 0 where
  null : Value
  str : List ℕ → Value
  num : ℕ → Value
  object : (List ℕ → Value) → Value

abbrev pub is_null : Value → Bool
is_null null = true
is_null (str s) = false
is_null (num n) = false
is_null (object f) = false

abbrev pub index : Value → List ℕ → Value
index (object f) k = f k
index null k = null
index (str s) k = null
index (num n) k = null

pub put : (List ℕ → Value) → List ℕ → Value → List ℕ → Value
unfolding same_text
put f k w j = if same_text j k then w else f j

abbrev pub insert : Value → List ℕ → Value → Option Value
insert (object f) k w = some (object (put f k w))
insert null k w = none
insert (str s) k w = none
insert (num n) k w = none

put_self : (f : List ℕ → Value) (k : List ℕ) (w : Value) → put f k w k ≡ w
unfolding put
put_self f k w = rw (put, (same_text_iff k k).1 refl)

put_ne : (f : List ℕ → Value) (j k : List ℕ) (w : Value) → j ≢ k → put f k w j ≡ f j
unfolding put
put_ne f j k w ne = elim (Bool-cases (same_text j k)) [
  | inl e ↦ absurd (ne ((same_text_iff j k).0 e))
  | inr e ↦ rw (put, e)
]

pub insert_object :
    (v w : Value) (j k : List ℕ)
    → is_null (index v j) ≡ false
    → (v' : Value) × (insert v k w ≡ some v')
insert_object null w j k e = cc
insert_object (str s) w j k e = cc
insert_object (num n) w j k e = cc
insert_object (object f) w j k e = (_, refl)

pub index-insert_self : (v v' w : Value) (k : List ℕ) → insert v k w ≡ some v' → index v' k ≡ w
index-insert_self null v' w k e = cc
index-insert_self (str s) v' w k e = cc
index-insert_self (num n) v' w k e = cc
index-insert_self (object f) v' w k e =
    subst (λ x. index x k ≡ w) (some_injective _ _ e) (put_self f k w)

pub index-insert_ne :
    (v v' w : Value) (j k : List ℕ) → insert v k w ≡ some v' → j ≢ k → index v' j ≡ index v j
index-insert_ne null v' w j k e ne = cc
index-insert_ne (str s) v' w j k e ne = cc
index-insert_ne (num n) v' w j k e ne = cc
index-insert_ne (object f) v' w j k e ne =
    subst (λ x. index x j ≡ f j) (some_injective _ _ e) (put_ne f j k w ne)

-- The message in every record that is not empty.
abbrev pub message : Value
message = object (λ k.
    if same_text k (codes "id")
    then str (codes "fslat/v2")
    else if same_text k (codes "timestamp_monotonic")
    then num 7
    else null)

abbrev pub values : Json
values = record {
  Cbor = Value;
  Value = Value;
  Float = ℕ;
  from_reader = λ item. elim item [ [] ↦ none | b ∷ bs ↦ some message ];
  to_value = λ v. some v;
  to_string = λ v. some (codes "{}");
  is_null = is_null;
  index = index;
  as_str = λ v. elim v [ str s ↦ some s | _ ↦ none ];
  as_u64 = λ v. elim v [ num n ↦ some n | _ ↦ none ];
  string = str;
  float = num;
  insert = insert;
  remove = λ v k. insert v k null;
  insert_object = insert_object;
  remove_object = λ v j k e. insert_object v null j k e;
  index-insert_self = index-insert_self;
  index-insert_ne = index-insert_ne;
  index-remove_self = λ v v' k e. ap is_null (index-insert_self v v' null k e);
  index-remove_ne = λ v v' j k e ne. index-insert_ne v v' null j k e ne;
}

-- A limiter that never fills up again: the tries that are left.
abbrev pub tries : Burster
tries = record {
  Limiter = ℕ;
  sliding_window_counter = λ limit window. limit;
  try_consume_one = λ now left. elim left [ zero ↦ (false, zero) | suc n ↦ (true, n) ];
}

abbrev settings : Settings values
settings = record { msglimit = 1; interval = 1; hostname = codes "node1"; unix_time = λ t. some t }

abbrev started : LoopState values tries recorder
started = record { tokens = λ _. none; world = [] }

-- One message of two passes the limit.
abbrev pub records : List (List ℕ × ℕ)
records = ((1 ∷ []), 0) ∷ ([], 1) ∷ ((2 ∷ []), 2) ∷ []

abbrev pub opening : Opening
opening = record { monotonic = some 5000000000; realtime = 1005000000000; registered = true }

admit_lem_example :
    let (passes, l) = tries.try_consume_one 5 (met values tries settings (λ _. none) (codes "a")) in
    let r = admit values tries settings 5 (codes "a") (λ _. none) in
    (r.0 ≡ passes) × (r.1 (codes "a") ≡ some l) × ((j : List ℕ) → j ≢ codes "a" → r.1 j ≡ none)
admit_lem_example = admit_lem values tries settings 5 (codes "a") (λ _. none)
