-- ===== src/Fslat/Message/Emit.antt =====
-- What a chain of encoder calls writes.
use ebpf_ldms.Prelude.{
  subst, length-drop, take-append, drop-append_add, drop-drop, ℕ, ◌+◌, ◌≤◌, ◌≡◌, ◌∙◌, ap, arith,
  List, [], ◌∷◌, ◌++◌, Option, some, length, length-append, drop, append_assoc,
}
use ebpf_ldms.Bpf.Helpers.{overwrite}
use ebpf_ldms.Bpf.Encoder.{Encoder, Sink}
use ebpf_ldms.Fslat.Message.{
  ◌>=>◌, to_be_bytes, type_len_noncanonical, u64_noncanonical, str_noncanonical,
}
use ebpf_ldms.Fslat.Message.Cbor.{item_bytes, uint, text}

-- Bytes written behind a part that is already written.
overwrite-overwrite :
    (m a b : List ℕ) → overwrite (overwrite m 0 a) (length a) b ≡ overwrite m 0 (a ++ b)
overwrite-overwrite m a b =
    let rest = drop (0 + length a) m in
    let e : 0 + length a + length b ≡ 0 + length (a ++ b) = omega (arith, length-append a b) in
    rw (
      take-append a rest,
      drop-append_add a rest (length b),
      drop-drop (0 + length a) (length b) m,
      e,
      append_assoc a b (drop (0 + length (a ++ b)) m),
    )

length-overwrite : (m a : List ℕ) → length a ≤ length m → length (overwrite m 0 a) ≡ length m
length-overwrite m a h =
    omega (arith, length-append a (drop (0 + length a) m), length-drop (0 + length a) m)

module _ (cbor : Encoder) where
  -- The encoder has written the bytes to the start of the memory.
  pub record At (e : cbor.Enc) (m written : List ℕ) : Type 0 where
    pub buffer : (cbor.sink e).buffer ≡ overwrite m 0 written
    pub filled : (cbor.sink e).filled ≡ length written

  -- The call writes the bytes whenever they fit.
  pub record Emits (call : cbor.Enc → Option cbor.Enc) (bytes : List ℕ) : Type 0 where
    pub run :
        (e : cbor.Enc) (m written : List ℕ)
        → At e m written
        → length written + length bytes ≤ length m
        → (e' : cbor.Enc) × (call e ≡ some e') × At e' m (written ++ bytes)

  put_run :
      (bytes : List ℕ) (e : cbor.Enc) (m written : List ℕ)
      → At e m written
      → length written + length bytes ≤ length m
      → (e' : cbor.Enc) × (cbor.put bytes e ≡ some e') × At e' m (written ++ bytes)
  put_run bytes e m written a h =
      let size : (cbor.sink e).filled + length bytes ≤ length (cbor.sink e).buffer =
        rw (a.buffer) (omega (arith, a.filled, length-overwrite m written)) in
      let (e', put, sink) = cbor.put_fits e bytes size in
      (
        e',
        put,
        record {
          buffer =
              ap (λ (s : Sink). s.buffer) sink
              ∙ rw (a.buffer, a.filled) (overwrite-overwrite m written bytes);
          filled =
              ap (λ (s : Sink). s.filled) sink
              ∙ omega (arith, a.filled, length-append written bytes);
        },
      )

  put-Emits : (bytes : List ℕ) → Emits (cbor.put bytes) bytes
  put-Emits bytes = record { run = put_run bytes }

  seq_run :
      (call next : cbor.Enc → Option cbor.Enc) (bytes more : List ℕ)
      → Emits call bytes
      → Emits next more
      → (e : cbor.Enc) (m written : List ℕ) → At e m written
      → length written + length (bytes ++ more) ≤ length m
      → (e' : cbor.Enc) × ((call >=> next) e ≡ some e') × At e' m (written ++ (bytes ++ more))
  unfolding ◌>=>◌
  seq_run call next bytes more c n e m written a h =
      let (e', ee, a') = c.run e m written a (omega (arith, length-append bytes more)) in
      let (e'', ee', a'') =
        n.run e' m (written ++ bytes) a'
          (omega (arith, length-append bytes more, length-append written bytes)) in
      (e'', rw (ee, ◌>=>◌) ee', subst (At e'' m) (append_assoc written bytes more) a'')

  -- One call after another.
  infixr 5 ◌⨾◌
  pub ◌⨾◌ :
      {call next : cbor.Enc → Option cbor.Enc} {bytes more : List ℕ}
      → Emits call bytes
      → Emits next more
      → Emits (call >=> next) (bytes ++ more)
  c ⨾ n = record { run = seq_run _ _ _ _ c n }

  pub u64-Emits : (x : ℕ) → Emits (u64_noncanonical cbor x) (item_bytes (uint x))
  unfolding u64_noncanonical item_bytes
  u64-Emits x = put-Emits (27 ∷ []) ⨾ put-Emits (to_be_bytes 8 x)

  pub str-Emits : (s : List ℕ) → Emits (str_noncanonical cbor s) (item_bytes (text s))
  unfolding str_noncanonical type_len_noncanonical item_bytes
  str-Emits s = (put-Emits (0x7b ∷ []) ⨾ put-Emits (to_be_bytes 8 (length s))) ⨾ put-Emits s

  -- A call that does what another one does.
  same-Emits :
      (call other : cbor.Enc → Option cbor.Enc) (bytes : List ℕ)
      → ((e : cbor.Enc) → call e ≡ other e)
      → Emits other bytes
      → Emits call bytes
  same-Emits call other bytes same o = record {
    run = λ e m written a h. let (e', run, a') = o.run e m written a h in (e', same e ∙ run, a');
  }

  pub begin_map-Emits : Emits cbor.begin_map (0xbf ∷ [])
  begin_map-Emits = same-Emits _ _ _ cbor.begin_map_lem (put-Emits (0xbf ∷ []))

  pub end-Emits : Emits cbor.end (0xff ∷ [])
  end-Emits = same-Emits _ _ _ cbor.end_lem (put-Emits (0xff ∷ []))

  -- The start of an encoder, and what its slice holds after a call.
  pub Emits_run :
      (call : cbor.Enc → Option cbor.Enc) (bytes m : List ℕ)
      → Emits call bytes
      → length bytes ≤ length m
      → (e : cbor.Enc) × (call (cbor.new m) ≡ some e)
        × ((cbor.sink e).buffer ≡ bytes ++ drop (length bytes) m)
  Emits_run call bytes m c h =
      let start : At (cbor.new m) m [] = record {
        buffer = ap (λ (s : Sink). s.buffer) (cbor.sink-new m);
        filled = ap (λ (s : Sink). s.filled) (cbor.sink-new m);
      } in
      let (e, run, a) = c.run (cbor.new m) m [] start (omega arith) in
      let k : 0 + length bytes ≡ length bytes = omega arith in
      (e, run, a.buffer ∙ ap (λ n. bytes ++ drop n m) k)
