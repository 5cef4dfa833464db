-- ===== src/Daemon/Ring/Serving.antt =====
-- How `ring_loop` of daemon/ebpf_ldms/src/main.rs starts and goes on.
use ebpf_ldms.Prelude.{ℕ, ◌≡◌, List, true, false, some}
use ebpf_ldms.Daemon.Clock.{TimeOffset, current_mono_realtime_offset, IsUnclocked}
use ebpf_ldms.Daemon.Stream.{Ldms, SockStream}
use ebpf_ldms.Daemon.Ring.{Json, Burster, Settings, Opening, LoopState, Step, ends, panics}
use ebpf_ldms.Daemon.Ring.Messages.{Runs}

module _ (json : Json) (burster : Burster) (ldms : Ldms) (settings : TimeOffset → Settings json)
    (stream : SockStream ldms) (opening : Opening) (items : List (List ℕ × ℕ))
    (s : LoopState json burster ldms) where
  abbrev pub HasOffset : TimeOffset → Type 0
  HasOffset offset = current_mono_realtime_offset opening.monotonic opening.realtime ≡ some offset

  -- What becomes of the task of the loop: it panics at the clocks, ends with an error at the ring, or
  -- serves the records with the offset of the clocks.
  pub data Serves : Step json burster ldms → Type 0 where
    unclocked : IsUnclocked opening.monotonic opening.realtime → Serves (panics s)
    unregistered :
        {offset : TimeOffset} → HasOffset offset → opening.registered ≡ false → Serves (ends s)
    serving :
        {offset : TimeOffset} {r : Step json burster ldms}
        → HasOffset offset
        → opening.registered ≡ true
        → Runs json burster ldms (settings offset) stream items s r
        → Serves r
