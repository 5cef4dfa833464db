-- ===== src/Daemon/Tests.antt =====
-- Runs of the model of the daemon on concrete inputs.
use ebpf_ldms.Prelude.{same_text, ℕ, ◌≡◌, refl, List, [], ◌∷◌, ◌++◌, false, none, some, codes}
use ebpf_ldms.Daemon.Cli.{EbpfLdms, ratelimit_of, parse_ratelimit, IsLimit, parse_ratelimit-IsLimit}
use ebpf_ldms.Daemon.Stream.{
  Ldms, stream_json, c_string, SockStream, new, ldms_stream_publish, ldms_msg_publish,
}
use ebpf_ldms.Daemon.Stream.Life.{NoNul, Made, new-Made, Passes, publish-Passes}

abbrev pub options : EbpfLdms
options = record {
  stream = codes "ebpf";
  msglimit = 0;
  interval = 5;
  host = codes "localhost";
  port = codes "60003";
  authentication = codes "none";
  hostname = codes "node1";
  logfile = [];
}

parse_ratelimit_runs : (parse_ratelimit options).msglimit ≡ 1
unfolding parse_ratelimit ratelimit_of
parse_ratelimit_runs = refl

parse_ratelimit-IsLimit_example :
    IsLimit (parse_ratelimit options)
    × (IsLimit options → parse_ratelimit options ≡ options)
    × (parse_ratelimit (parse_ratelimit options) ≡ parse_ratelimit options)
parse_ratelimit-IsLimit_example = parse_ratelimit-IsLimit options

-- A library that keeps the messages, and whose transport is always number 3.
abbrev pub recorder : Ldms
recorder = record {
  World = List (List ℕ);
  Handle = ℕ;
  AttrValueList = ℕ;
  EventCb = ℕ;
  CbArg = ℕ;
  Cred = ℕ;
  xprt_new_with_auth = λ xprt auth attrs w. (some 3, w);
  xprt_connect_by_name = λ handle host port cb arg w. (0, w);
  xprt_close = λ handle w. w;
  stream_publish = λ handle stream type message len w. (0, w ++ (message ∷ []));
  msg_publish = λ handle stream type cred perm message len w. (0, w ++ (message ∷ []));
}

abbrev pub opened : SockStream recorder
opened = record {
  c_host = codes "localhost";
  c_port = codes "60003";
  c_stream = codes "ebpf";
  xprt_handle = 3;
}

new_runs :
    new recorder
      (codes "sock")
      (codes "munge")
      (codes "localhost")
      (codes "60003")
      (codes "ebpf")
      []
    ≡ (some opened, [])
unfolding new same_text c_string
new_runs = refl

new-Made_example :
    Made recorder
      (codes "sock")
      (codes "munge")
      (codes "localhost")
      (codes "60003")
      (codes "ebpf")
      []
      (new recorder
        (codes "sock")
        (codes "munge")
        (codes "localhost")
        (codes "60003")
        (codes "ebpf")
        [])
new-Made_example =
    new-Made recorder (codes "sock") (codes "munge") (codes "localhost") (codes "60003")
      (codes "ebpf") []

publish-Passes_example :
    (¬ NoNul (codes "{}")
      → (ldms_msg_publish recorder opened (codes "{}") [] ≡ (false, []))
        × (ldms_stream_publish recorder opened (codes "{}") [] ≡ (false, [])))
    × (NoNul (codes "{}")
        → Passes recorder opened
            (codes "{}")
            []
            (ldms_msg_publish recorder opened (codes "{}") [])
            (λ handle name. recorder.msg_publish handle name stream_json none 400)
          × Passes recorder opened
              (codes "{}")
              []
              (ldms_stream_publish recorder opened (codes "{}") [])
              (λ handle name. recorder.stream_publish handle name stream_json))
publish-Passes_example = publish-Passes recorder opened (codes "{}") []
