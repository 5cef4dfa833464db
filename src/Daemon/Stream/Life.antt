-- ===== src/Daemon/Stream/Life.antt =====
-- How a `SockStream` of daemon/ldms_stream/src/lib.rs is made, and what it passes on.
use ebpf_ldms.Prelude.{
  same_text, same_text_iff, ℕ, ◌+◌, ◌≡◌, ◌≢◌, refl, ap, arith, ◌⊎◌, inl, inr, ◌↔◌, List, [], ◌∷◌,
  Bool, true, false, ◌||◌, Option, some, none, ◌==◌, ==_iff, Bool-cases, Option-cases, length,
  codes,
}
use ebpf_ldms.Daemon.Stream.{
  Ldms, stream_json, c_string, SockStream, new, ldms_stream_publish, ldms_msg_publish,
}

-- A text that a C string can hold, and one that it cannot.
abbrev pub NoNul : List ℕ → Type 0
NoNul [] = Unit {0}
NoNul (b ∷ bs) = (b ≢ 0) × NoNul bs

c_string-NoNul :
    (bs : List ℕ) → (NoNul bs × (c_string bs ≡ some bs)) ⊎ ((¬ NoNul bs) × (c_string bs ≡ none))
unfolding c_string
c_string-NoNul [] = inl (ground arith)
c_string-NoNul (b ∷ bs) = elim (c_string-NoNul bs) [
  | inr (bad, e) ↦ inr (λ w. bad w.1, rw (c_string, e))
  | inl (good, e) ↦ elim (Bool-cases (b == 0)) [
    | inl z ↦ inr (λ w. w.0 ((==_iff b 0).0 z), rw (c_string, e, z))
    | inr z ↦ inl ((λ f. absurd (ground arith), good), rw (c_string, e, z))
  ]
]

-- The transports and authentications that the stream supports.
abbrev pub IsSupported : List ℕ → List ℕ → Type 0
IsSupported xprt auth = (xprt ≡ codes "sock") × ((auth ≡ codes "none") ⊎ (auth ≡ codes "munge"))

-- The texts that go to the library as C strings.
abbrev pub AreCStrings : List ℕ → List ℕ → List ℕ → Type 0
AreCStrings host port stream = NoNul host × NoNul port × NoNul stream

known_auth : List ℕ → Bool
known_auth auth = same_text auth (codes "none") || same_text auth (codes "munge")

known_auth_iff :
    (auth : List ℕ) → ((known_auth auth ≡ true) ↔ ((auth ≡ codes "none") ⊎ (auth ≡ codes "munge")))
unfolding known_auth
known_auth_iff auth =
    let n = same_text_iff auth (codes "none") in
    let m = same_text_iff auth (codes "munge") in
    elim (Bool-cases (same_text auth (codes "none"))) [
      | inl e ↦ (λ _. inl (n.0 e), λ _. rw (known_auth, e))
      | inr e ↦ (
        λ f. inr (m.0 (rw (known_auth, e) at f)),
        λ f. rw (known_auth, e) (elim f [ inl g ↦ absurd (cc (n.1 g)) | inr g ↦ m.1 g ]),
      )
    ]

module _ (ldms : Ldms) (xprt auth host port stream : List ℕ) (w : ldms.World) where
  -- The outcomes of making a stream.
  pub data Made : Option (SockStream ldms) × ldms.World → Type 0 where
    unsupported : ¬ IsSupported xprt auth → Made (none, w)
    unprintable : ¬ AreCStrings host port stream → Made (none, w)
    failed :
        {w' : ldms.World}
        → IsSupported xprt auth
        → AreCStrings host port stream
        → ldms.xprt_new_with_auth xprt auth none w ≡ (none, w')
        → Made (none, w')
    made :
        {w' : ldms.World} {handle : ldms.Handle}
        → IsSupported xprt auth
        → AreCStrings host port stream
        → ldms.xprt_new_with_auth xprt auth none w ≡ (some handle, w')
        → Made (
          some (record { c_host = host; c_port = port; c_stream = stream; xprt_handle = handle }),
          w',
        )

  new_supported :
      IsSupported xprt auth
      → same_text xprt (codes "sock") ≡ true
      → known_auth auth ≡ true
      → Made (new ldms xprt auth host port stream w)
  unfolding new known_auth
  new_supported ok' sock known = elim (c_string-NoNul host) [
    | inr (bad, eh) ↦ rw (new, sock, known, eh) (unprintable (λ c. bad c.0))
    | inl (gh, eh) ↦ elim (c_string-NoNul port) [
      | inr (bad, ep) ↦ rw (new, sock, known, eh, ep) (unprintable (λ c. bad c.1))
      | inl (gp, ep) ↦ elim (c_string-NoNul stream) [
        | inr (bad, es) ↦ rw (new, sock, known, eh, ep, es) (unprintable (λ c. bad c.2))
        | inl (gs, es) ↦
            let given = ldms.xprt_new_with_auth xprt auth none w in
            elim (Option-cases given.0) [
              | inl z ↦
                  rw (new, sock, known, eh, ep, es, z)
                    (failed ok' (gh, gp, gs) (ap (λ (o : Option ldms.Handle). (o, given.1)) z))
              | inr (handle, z) ↦
                  rw (new, sock, known, eh, ep, es, z)
                    (made ok' (gh, gp, gs) (ap (λ (o : Option ldms.Handle). (o, given.1)) z))
            ]
      ]
    ]
  ]

  -- A stream is made exactly when the transport is "sock", the authentication is "none" or
  -- "munge", no text holds a NUL, and the library gives a transport, which the stream then holds
  -- with the texts. Before the library is called, an error leaves its state as it was.
  pub new-Made : Made (new ldms xprt auth host port stream w)
  unfolding new known_auth
  new-Made = elim (Bool-cases (same_text xprt (codes "sock"))) [
    | inr e ↦
        rw (new, e) (unsupported (λ s. absurd (cc ((same_text_iff xprt (codes "sock")).1 s.0))))
    | inl e ↦ elim (Bool-cases (known_auth auth)) [
      | inr f ↦
          let f' : (same_text auth (codes "none") || same_text auth (codes "munge")) ≡ false = f in
          rw (new, e, f') (unsupported (λ s. absurd (cc ((known_auth_iff auth).1 s.1))))
      | inl f ↦
          new_supported ((same_text_iff xprt (codes "sock")).0 e, (known_auth_iff auth).0 f) e f
    ]
  ]

module _ (ldms : Ldms) (s : SockStream ldms) (message : List ℕ) (w : ldms.World) where
  -- A call of the library with a message and its length, whose answer zero is success.
  abbrev pub Passes :
      Bool × ldms.World → (ldms.Handle → List ℕ → List ℕ → ℕ → ldms.World → ℕ × ldms.World) → Type 0
  Passes r publish =
      let (rc, w') = publish s.xprt_handle s.c_stream message (length message + 1) w in
      (r.1 ≡ w') × ((r.0 ≡ true) ↔ (rc ≡ 0))

  -- Either way of publishing refuses a message with a NUL, without a call of the library. Any other
  -- message goes to the library unchanged, for this transport and stream, as JSON, with a length that
  -- counts the closing NUL, and succeeds exactly when the library answers zero. `ldms_msg_publish`
  -- gives no credentials and the permission 400, a decimal number.
  pub publish-Passes :
      (¬ NoNul message
        → (ldms_msg_publish ldms s message w ≡ (false, w))
          × (ldms_stream_publish ldms s message w ≡ (false, w)))
      × (NoNul message
          → Passes
              (ldms_msg_publish ldms s message w)
              (λ handle name. ldms.msg_publish handle name stream_json none 400)
            × Passes
                (ldms_stream_publish ldms s message w)
                (λ handle name. ldms.stream_publish handle name stream_json))
  unfolding ldms_msg_publish ldms_stream_publish
  publish-Passes = elim (c_string-NoNul message) [
    | inr (bad, e) ↦
        (λ b. (rw (e, ldms_msg_publish), rw (e, ldms_stream_publish)), λ g. absurd (bad g))
    | inl (good, e) ↦ (
      λ b. absurd (b good),
      λ g. (
        rw (e, ldms_msg_publish) (refl, ==_iff _ 0),
        rw (e, ldms_stream_publish) (refl, ==_iff _ 0),
      ),
    )
  ]
