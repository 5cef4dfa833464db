-- ===== src/Daemon/Stream.antt =====
-- The stream to an LDMS daemon: `SockStream` of daemon/ldms_stream/src/lib.rs, over the functions of
-- the C library that raw.rs there declares.
pub mod Life
use ebpf_ldms.Prelude.{
  same_text, ℕ, ◌+◌, List, [], ◌∷◌, Bool, true, false, ◌&&◌, ◌||◌, Option, some, none, ◌==◌,
  if◌then◌else◌, length, codes,
}

pub data StreamType : Type 0 where
  stream_string stream_json : StreamType

-- The C library, as the stream calls it, with the state that it keeps. A null pointer is `none`: a
-- transport that cannot be made, and attributes, callbacks and credentials that are not given. A
-- result other than zero is an error. A string is passed without its closing NUL.
pub record Ldms : Type 1 where
  pub World : Type 0
  pub Handle : Type 0
  pub AttrValueList : Type 0
  pub EventCb : Type 0
  pub CbArg : Type 0
  pub Cred : Type 0
  pub xprt_new_with_auth : List ℕ → List ℕ → Option AttrValueList → World → Option Handle × World
  pub xprt_connect_by_name :
      Handle → List ℕ → List ℕ → Option EventCb → Option CbArg → World → ℕ × World
  pub xprt_close : Handle → World → World
  pub stream_publish : Handle → List ℕ → StreamType → List ℕ → ℕ → World → ℕ × World
  pub msg_publish : Handle → List ℕ → StreamType → Option Cred → ℕ → List ℕ → ℕ → World → ℕ × World

-- `CString::new`: the bytes, if none of them is NUL.
unfoldable pub c_string : List ℕ → Option (List ℕ)
c_string [] = some []
c_string (b ∷ bs) = elim (c_string bs) [
  | none ↦ none
  | some cs ↦ if b == 0 then none else some (b ∷ cs)
]

module _ (ldms : Ldms) where
  pub record SockStream : Type 0 where
    pub c_host : List ℕ
    pub c_port : List ℕ
    pub c_stream : List ℕ
    pub xprt_handle : ldms.Handle

  -- `none` is an error. An error leaves the state of the library as the calls before it made it.
  unfoldable pub new :
      List ℕ → List ℕ → List ℕ → List ℕ → List ℕ → ldms.World → Option SockStream × ldms.World
  unfolding same_text c_string
  new xprt auth host port stream w =
      if same_text xprt (codes "sock")
      then (if same_text auth (codes "none") || same_text auth (codes "munge")
          then elim (c_string host) [
            | none ↦ (none, w)
            | some c_host ↦ elim (c_string port) [
              | none ↦ (none, w)
              | some c_port ↦ elim (c_string stream) [
                | none ↦ (none, w)
                | some c_stream ↦
                    (let (made, w') = ldms.xprt_new_with_auth xprt auth none w in
                      elim made [
                        | none ↦ (none, w')
                        | some handle ↦ (
                          some (record {
                            c_host = c_host;
                            c_port = c_port;
                            c_stream = c_stream;
                            xprt_handle = handle;
                          }),
                          w',
                        )
                      ])
              ]
            ]
          ]
          else (none, w))
      else (none, w)

  -- True is success.
  unfoldable pub connect : SockStream → ldms.World → Bool × ldms.World
  connect s w =
      let (rc, w') = ldms.xprt_connect_by_name s.xprt_handle s.c_host s.c_port none none w in
      (rc == 0, w')

  unfoldable pub close : SockStream → ldms.World → ldms.World
  close s w = ldms.xprt_close s.xprt_handle w

  unfoldable pub ldms_stream_publish : SockStream → List ℕ → ldms.World → Bool × ldms.World
  unfolding c_string
  ldms_stream_publish s message w = elim (c_string message) [
    | none ↦ (false, w)
    | some c_message ↦
        let (rc, w') =
          ldms.stream_publish s.xprt_handle s.c_stream stream_json c_message (length c_message + 1)
            w in
        (rc == 0, w')
  ]

  -- The permission is the decimal number 400: Rust has no octal numbers with a leading zero.
  unfoldable pub ldms_msg_publish : SockStream → List ℕ → ldms.World → Bool × ldms.World
  unfolding c_string
  ldms_msg_publish s message w = elim (c_string message) [
    | none ↦ (false, w)
    | some c_message ↦
        let (rc, w') =
          ldms.msg_publish s.xprt_handle s.c_stream stream_json none 400 c_message
            (length c_message + 1) w in
        (rc == 0, w')
  ]

  -- `drop` of a stream.
  unfoldable pub drop_stream : SockStream → ldms.World → ldms.World
  unfolding close
  drop_stream s w = close s w
