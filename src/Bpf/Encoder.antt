-- ===== src/Bpf/Encoder.antt =====
-- The encoder of the crate minicbor over a byte slice, as the programs call it.
use ebpf_ldms.Prelude.{
  ℕ, ◌+◌, ◌≤◌, ◌<◌, ◌≡◌, refl, List, [], ◌∷◌, Option, some, none, arith, ltb, if◌then◌else◌, length,
}
use ebpf_ldms.Bpf.Helpers.{overwrite}

-- What an encoder writes to: the slice, and how much of it is filled.
pub record Sink : Type 0 where
  pub buffer : List ℕ
  pub filled : ℕ

-- `put` writes all bytes behind those written before, or fails if they do not fit.
pub record Encoder : Type 1 where
  pub Enc : Type 0
  pub new : List ℕ → Enc
  pub sink : Enc → Sink
  pub put : List ℕ → Enc → Option Enc
  pub begin_map : Enc → Option Enc
  pub end : Enc → Option Enc
  pub sink-new : (m : List ℕ) → sink (new m) ≡ record { buffer = m; filled = 0 }
  pub put_fits :
      (e : Enc) (bytes : List ℕ)
      → (sink e).filled + length bytes ≤ length (sink e).buffer
      → (e' : Enc) × (put bytes e ≡ some e')
        × (sink e' ≡ record {
          buffer = overwrite (sink e).buffer (sink e).filled bytes;
          filled = (sink e).filled + length bytes;
        })
  pub put_refused :
      (e : Enc) (bytes : List ℕ)
      → length (sink e).buffer < (sink e).filled + length bytes
      → put bytes e ≡ none
  pub begin_map_lem : (e : Enc) → begin_map e ≡ put (0xbf ∷ []) e
  pub end_lem : (e : Enc) → end e ≡ put (0xff ∷ []) e

abbrev pub append_bytes : List ℕ → Sink → Option Sink
append_bytes bytes s =
    if ltb (length s.buffer) (s.filled + length bytes)
    then none
    else some
        (record { buffer = overwrite s.buffer s.filled bytes; filled = s.filled + length bytes })

pub append_bytes_fits :
    (s : Sink) (bytes : List ℕ)
    → s.filled + length bytes ≤ length s.buffer
    → append_bytes bytes s
      ≡ some
          (record { buffer = overwrite s.buffer s.filled bytes; filled = s.filled + length bytes })
append_bytes_fits s bytes h = ground arith

pub append_bytes_refused :
    (s : Sink) (bytes : List ℕ)
    → length s.buffer < s.filled + length bytes
    → append_bytes bytes s ≡ none
append_bytes_refused s bytes h = ground arith

-- An encoder that is its sink.
abbrev pub plain : Encoder
plain = record {
  Enc = Sink;
  new = λ m. record { buffer = m; filled = 0 };
  sink = λ s. s;
  put = append_bytes;
  begin_map = append_bytes (0xbf ∷ []);
  end = append_bytes (0xff ∷ []);
  sink-new = λ m. refl;
  put_fits = λ s bytes h. (_, append_bytes_fits s bytes h, refl);
  put_refused = append_bytes_refused;
  begin_map_lem = λ s. refl;
  end_lem = λ s. refl;
}
