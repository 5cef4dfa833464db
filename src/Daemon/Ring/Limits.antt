-- ===== src/Daemon/Ring/Limits.antt =====
-- The rate limits of `ring_loop` of daemon/ebpf_ldms/src/main.rs.
use ebpf_ldms.Prelude.{
  same_text_iff, same_text, ℕ, ◌≡◌, ◌≢◌, refl, ◌∙◌, inl, inr, List, some, Bool-cases, Option-cases,
}
use ebpf_ldms.Daemon.Ring.{
  Json, Burster, Settings, Tokens, fresh, put_token, or_insert, admit, unwrap_or,
}

module _ (json : Json) (burster : Burster) where
  put_token_self :
      (tokens : Tokens json burster) (id : List ℕ) (l : burster.Limiter)
      → put_token json burster tokens id l id ≡ some l
  unfolding put_token
  put_token_self tokens id l = rw (put_token, (same_text_iff id id).1 refl)

  put_token_ne :
      (tokens : Tokens json burster) (id j : List ℕ) (l : burster.Limiter)
      → j ≢ id
      → put_token json burster tokens id l j ≡ tokens j
  unfolding put_token
  put_token_ne tokens id j l ne = elim (Bool-cases (same_text j id)) [
    | inl e ↦ absurd (ne ((same_text_iff j id).0 e))
    | inr e ↦ rw (put_token, e)
  ]

  -- The limiter that a message of a producer meets.
  abbrev pub met : Settings json → Tokens json burster → List ℕ → burster.Limiter
  met c tokens id = unwrap_or (tokens id) (fresh json burster c)

  or_insert_self :
      (c : Settings json) (id : List ℕ) (tokens : Tokens json burster)
      → or_insert json burster c id tokens id ≡ some (met c tokens id)
  unfolding or_insert unwrap_or
  or_insert_self c id tokens = elim (Option-cases (tokens id)) [
    | inr (l, e) ↦ rw (or_insert, unwrap_or, e) e
    | inl e ↦ rw (or_insert, unwrap_or, e) (put_token_self tokens id (fresh json burster c))
  ]

  or_insert_ne :
      (c : Settings json) (id j : List ℕ) (tokens : Tokens json burster)
      → j ≢ id
      → or_insert json burster c id tokens j ≡ tokens j
  unfolding or_insert
  or_insert_ne c id j tokens ne = elim (Option-cases (tokens id)) [
    | inr (l, e) ↦ rw (or_insert, e)
    | inl e ↦ rw (or_insert, e) (put_token_ne tokens id j _ ne)
  ]

  -- Every message, the first one of a producer included, takes one from the limiter of its
  -- producer, which is made for the first. It passes exactly if the limiter lets it, and the
  -- limiters of all other producers stay as they are.
  pub admit_lem :
      (c : Settings json) (now : ℕ) (id : List ℕ) (tokens : Tokens json burster)
      → let (passes, l) = burster.try_consume_one now (met c tokens id) in
        let r = admit json burster c now id tokens in
        (r.0 ≡ passes) × (r.1 id ≡ some l) × ((j : List ℕ) → j ≢ id → r.1 j ≡ tokens j)
  unfolding admit
  admit_lem c now id tokens =
      rw (admit, or_insert_self c id tokens)
        (
          refl,
          put_token_self (or_insert json burster c id tokens) id _,
          λ j ne.
              put_token_ne (or_insert json burster c id tokens) id j _ ne
              ∙ or_insert_ne c id j tokens ne,
        )
