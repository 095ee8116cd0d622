-- ===== src/Channel.antt =====
-- A channel from a client to a server, over whole runs of both: the calls of
-- `multisim_client_push_core` (src/core/multisim_client.cpp) by one process and of
-- `multisim_server_pull_core` (src/core/multisim_server.cpp) by another, on a connection that is not
-- lost meanwhile.
pub mod Sent
pub mod Got
pub mod Order
pub mod Down
use multisim.Base.{
  ℕ, ◌≡◌, Bool, List, [], ◌∷◌, Bytes, some, returned, ◌<◌, ◌++◌, length, length-append, ap, arith,
}
use multisim.Os.{Os}
use multisim.SocketIo.Stream.{IsStream}
use multisim.Data.{Target, message}
use multisim.Data.Message.{Fits}
use multisim.Names.{find}
use multisim.MultisimServer.{success, fail}
use multisim.MultisimServer
use multisim.MultisimClient

-- The array that was pushed, and what `send_buf` held before.
pub record Push : Type 0 where
  pub array : List ℕ
  pub stack : List ℕ

-- Between `before` and `after` the stream moved by a part of a message of `size` bytes: by some of it
-- and not by all of it. The connection broke off inside the message, and is of no more use.
abbrev pub BrokeOff : ℕ → Bytes → Bytes → Type 0
BrokeOff size before after =
    (part : Bytes) × (0 < length part) × (length part < size) × (after ≡ before ++ part)

pub not-BrokeOff : (size : ℕ) (before after : Bytes) → after ≡ before → ¬ BrokeOff size before after
not-BrokeOff size before after same (part, some', less, on) =
    let l : length after ≡ length before = ap length same in
    let m : length after ≡ length (before ++ part) = ap length on in
    omega (arith, length-append before part)

module _ (os : Os) (stream : IsStream os) (t : Target) (name : Bytes) (width : ℕ)
    (is_4state : Bool) where
  -- The channel `name` of a process has the index `i` and the socket `fd`.
  pub record ClientHolds (i fd : ℕ) (s : MultisimClient.State os.World) : Type 0 where
    pub index : find name s.server_name_to_idx ≡ some i
    pub socket : s.sockets i ≡ fd

  pub record ServerHolds (i fd : ℕ) (s : MultisimServer.State os.World) : Type 0 where
    pub index : find name s.server_name_to_idx ≡ some i
    pub socket : s.sockets i ≡ some fd

  -- A run of one client process, with its pushes on the channel that gave success, in order. A push
  -- that gave failure did not break off inside its message. Between its calls on this channel the process
  -- does anything that leaves the channel and what was sent on it alone.
  pub data Pushes (i fd : ℕ)
      : MultisimClient.State os.World → List Push → MultisimClient.State os.World → Type 0 where
    push_end : {s : MultisimClient.State os.World} → Pushes i fd s [] s
    accept :
        {s s' u : MultisimClient.State os.World} {ps : List Push} (fuel : ℕ) (p : Push)
        → Fits is_4state width p.array
        → Fits is_4state width p.stack
        → MultisimClient.multisim_client_push_core os fuel t s name p.array width is_4state p.stack
          ≡ returned (success, s')
        → Pushes i fd s' ps u
        → Pushes i fd s (p ∷ ps) u
    refuse :
        {s s' u : MultisimClient.State os.World} {ps : List Push} (fuel : ℕ) (p : Push)
        → MultisimClient.multisim_client_push_core os fuel t s name p.array width is_4state p.stack
          ≡ returned (fail, s')
        → ¬ BrokeOff
            (length (message t is_4state width p.array p.stack))
            (stream.sent s.world fd)
            (stream.sent s'.world fd)
        → Pushes i fd s' ps u
        → Pushes i fd s ps u
    push_elsewhere :
        {s s' u : MultisimClient.State os.World} {ps : List Push}
        → ClientHolds i fd s'
        → stream.sent s'.world fd ≡ stream.sent s.world fd
        → Pushes i fd s' ps u
        → Pushes i fd s ps u

  -- A run of one server process, with the arrays of its pulls on the channel that gave success, in
  -- order. A pull that gave failure has kept the client.
  pub data Pulls (i fd : ℕ)
      : MultisimServer.State os.World → List (List ℕ) → MultisimServer.State os.World → Type 0 where
    pull_end : {s : MultisimServer.State os.World} → Pulls i fd s [] s
    deliver :
        {s u : MultisimServer.State os.World} {ms : List (List ℕ)} (fuel : ℕ) (mem stack : List ℕ)
        (p : MultisimServer.Pulled os.World)
        → Fits is_4state width mem
        → Fits is_4state width stack
        → MultisimServer.multisim_server_pull_core os fuel t s name mem width is_4state stack
          ≡ returned p
        → p.status ≡ success
        → Pulls i fd p.state ms u
        → Pulls i fd s (p.array ∷ ms) u
    wait :
        {s u : MultisimServer.State os.World} {ms : List (List ℕ)} (fuel : ℕ) (mem stack : List ℕ)
        (p : MultisimServer.Pulled os.World)
        → Fits is_4state width mem
        → Fits is_4state width stack
        → MultisimServer.multisim_server_pull_core os fuel t s name mem width is_4state stack
          ≡ returned p
        → p.status ≡ fail
        → p.state.sockets i ≡ some fd
        → Pulls i fd p.state ms u
        → Pulls i fd s ms u
    pull_elsewhere :
        {s s' u : MultisimServer.State os.World} {ms : List (List ℕ)}
        → ServerHolds i fd s'
        → stream.got s'.world fd ≡ stream.got s.world fd
        → Pulls i fd s' ms u
        → Pulls i fd s ms u
