-- ===== src/Channel/Down.antt =====
-- A channel from a server to a client, over whole runs of both: the calls of
-- `multisim_server_push_core` (src/core/multisim_server.cpp) by one process and of
-- `multisim_client_pull_core` (src/core/multisim_client.cpp) by another, on a connection that is not
-- lost meanwhile.
pub mod Sent
pub mod Got
pub mod Order
use multisim.Base.{ℕ, ◌≡◌, Bool, List, [], ◌∷◌, Bytes, some, returned}
use multisim.Os.{Os}
use multisim.SocketIo.Stream.{IsStream}
use multisim.Data.{Target, buf_size}
use multisim.Data.Message.{Fits}
use multisim.MultisimServer.{success, fail}
use multisim.MultisimServer
use multisim.MultisimClient
use multisim.Channel.{Push, ClientHolds, ServerHolds, BrokeOff}

module _ (os : Os) (stream : IsStream os) (t : Target) (name : Bytes) (width : ℕ)
    (is_4state : Bool) where
  -- A run of one server process, with its pushes on the channel that gave success, in order. A push
  -- that gave failure has kept the client. Between its calls on this channel the process does anything
  -- that leaves the channel and what was sent on it alone.
  pub data ServerPushes (i fd : ℕ)
      : MultisimServer.State os.World → List Push → MultisimServer.State os.World → Type 0 where
    push_end : {s : MultisimServer.State os.World} → ServerPushes i fd s [] s
    accept :
        {s s' u : MultisimServer.State os.World} {ps : List Push} (fuel : ℕ) (p : Push)
        → Fits is_4state width p.array
        → Fits is_4state width p.stack
        → MultisimServer.multisim_server_push_core os fuel t s name p.array width is_4state p.stack
          ≡ returned (success, s')
        → ServerPushes i fd s' ps u
        → ServerPushes i fd s (p ∷ ps) u
    refuse :
        {s s' u : MultisimServer.State os.World} {ps : List Push} (fuel : ℕ) (p : Push)
        → MultisimServer.multisim_server_push_core os fuel t s name p.array width is_4state p.stack
          ≡ returned (fail, s')
        → s'.sockets i ≡ some fd
        → ServerPushes i fd s' ps u
        → ServerPushes i fd s ps u
    push_elsewhere :
        {s s' u : MultisimServer.State os.World} {ps : List Push}
        → ServerHolds os stream t name width is_4state i fd s'
        → stream.sent s'.world fd ≡ stream.sent s.world fd
        → ServerPushes i fd s' ps u
        → ServerPushes i fd s ps u

  -- A run of one client process, with the arrays of its pulls on the channel that gave success, in
  -- order. A pull that gave failure did not break off inside a message.
  pub data ClientPulls (i fd : ℕ)
      : MultisimClient.State os.World → List (List ℕ) → MultisimClient.State os.World → Type 0 where
    pull_end : {s : MultisimClient.State os.World} → ClientPulls i fd s [] s
    deliver :
        {s u : MultisimClient.State os.World} {ms : List (List ℕ)} (fuel : ℕ) (mem stack : List ℕ)
        (p : MultisimClient.Pulled os.World)
        → Fits is_4state width mem
        → Fits is_4state width stack
        → MultisimClient.multisim_client_pull_core os fuel t s name mem width is_4state stack
          ≡ returned p
        → p.status ≡ success
        → ClientPulls i fd p.state ms u
        → ClientPulls i fd s (p.array ∷ ms) u
    wait :
        {s u : MultisimClient.State os.World} {ms : List (List ℕ)} (fuel : ℕ) (mem stack : List ℕ)
        (p : MultisimClient.Pulled os.World)
        → Fits is_4state width mem
        → Fits is_4state width stack
        → MultisimClient.multisim_client_pull_core os fuel t s name mem width is_4state stack
          ≡ returned p
        → p.status ≡ fail
        → ¬ BrokeOff
            (buf_size is_4state width)
            (stream.got s.world fd)
            (stream.got p.state.world fd)
        → ClientPulls i fd p.state ms u
        → ClientPulls i fd s ms u
    pull_elsewhere :
        {s s' u : MultisimClient.State os.World} {ms : List (List ℕ)}
        → ClientHolds os stream t name width is_4state i fd s'
        → stream.got s'.world fd ≡ stream.got s.world fd
        → ClientPulls i fd s' ms u
        → ClientPulls i fd s ms u
