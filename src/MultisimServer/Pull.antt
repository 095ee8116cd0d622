-- ===== src/MultisimServer/Pull.antt =====
-- `multisim_server_pull_core` (src/core/multisim_server.cpp) on every branch.
use multisim.Base.{
  empty_of_length, ℕ, zero, suc, ◌≡◌, refl, ◌∙◌, ap, Bool, List, ◌++◌, Bytes, length, drop_all,
  arith, append-nil, none, some, returned, >>=-eq-returned, returned-injective,
}
use multisim.Os.{Os, Ret, Errno, count, failed}
use multisim.SocketIo.{read_msg}
use multisim.SocketIo.Stream.{IsStream}
use multisim.SocketIo.Read.{Taken, read_msg-Taken}
use multisim.Names.{find, get_server_idx}
use multisim.Data.{Target, buf_size, read_target, pulled, not_pulled}
use multisim.Data.Message.{Fits, length-read_target, not_pulled-read_target}
use multisim.MultisimServer.{
  State, Pulled, success, fail, update, drop_client, connect_client, pull_result, pull_connected,
  multisim_server_pull_core,
}

-- How a pull on the socket `fd` of index `i` into the array `mem` ends, behind a `read_msg` that gave
-- `r`. Delivered: the next whole message is off the stream and its data in the array. Nothing: no
-- message is there, the stream and the array are as before, and the client is kept. Lost: the client
-- is gone, the socket is closed and its slot free. Nothing else of the process changes.
pub data PullOutcome (os : Os) (stream : IsStream os) (t : Target) (is_4state : Bool) (width : ℕ)
    (mem : List ℕ) (s : State os.World) (i fd : ℕ) (r : Ret × Bytes × os.World)
    (p : Pulled os.World) : Type 0 where
  delivered :
      (taken : Bytes)
      → length taken ≡ buf_size is_4state width
      → p.status ≡ success
      → p.state ≡ record s { world = r.2 }
      → stream.got r.2 fd ≡ stream.got s.world fd ++ taken
      → p.array ≡ pulled t is_4state width mem taken
      → PullOutcome os stream t is_4state width mem s i fd r p
  nothing :
      (e : Errno)
      → r.0 ≡ failed e
      → p.status ≡ fail
      → p.state ≡ record s { world = r.2 }
      → stream.got r.2 fd ≡ stream.got s.world fd
      → p.array ≡ mem
      → PullOutcome os stream t is_4state width mem s i fd r p
  lost :
      r.0 ≡ count 0
      → p.status ≡ fail
      → p.state ≡ record s { world = os.close r.2 fd; sockets = update s.sockets i none }
      → PullOutcome os stream t is_4state width mem s i fd r p

module _ (os : Os) (stream : IsStream os) where
  pull_result-PullOutcome :
      (t : Target) (is_4state : Bool) (width : ℕ) (mem stack : List ℕ) (s : State os.World)
      (i fd : ℕ) (r : Ret × Bytes × os.World)
      → Fits is_4state width mem
      → Fits is_4state width stack
      → Taken
          (buf_size is_4state width)
          (read_target is_4state mem stack)
          (stream.got s.world fd)
          r.0
          r.1
          (stream.got r.2 fd)
      → PullOutcome os stream t is_4state width mem s i fd r
          (pull_result os t is_4state width mem s i fd r)
  unfolding pull_result drop_client
  pull_result-PullOutcome t is_4state width mem stack s i fd (count (suc k), dst, w) m b v =
      let size = length-read_target is_4state width mem stack m b in
      let whole : length v.taken ≡ buf_size is_4state width = omega (arith, v.counted) in
      let all : dst ≡ v.taken =
        v.memory
        ∙ ap (◌++◌ v.taken)
            (drop_all (length v.taken) (read_target is_4state mem stack) (omega arith))
        ∙ append-nil v.taken in
      delivered v.taken whole refl refl v.stream (ap (pulled t is_4state width mem) all)
  pull_result-PullOutcome t is_4state width mem stack s i fd (count zero, dst, w) m b v =
      lost refl refl refl
  pull_result-PullOutcome t is_4state width mem stack s i fd (failed e, dst, w) m b v =
      let none' = empty_of_length v.taken v.counted in
      let same : dst ≡ read_target is_4state mem stack = rw none' at v.memory in
      nothing e refl refl refl (v.stream ∙ ap (◌++◌ (stream.got s.world fd)) none' ∙ append-nil _)
        (ap (not_pulled is_4state mem) same ∙ not_pulled-read_target is_4state width mem stack m)

  -- A pull on a connected server, where it returns, is one `read_msg` on the server's socket, and ends
  -- in one of the three ways: it gives success where a whole message came, in however many parts,
  -- keeps the client on a failure that took nothing, and drops it where the connection ended.
  pub multisim_server_pull_core-PullOutcome :
      (fuel : ℕ) (t : Target) (s : State os.World) (name : Bytes) (mem : List ℕ) (width : ℕ)
      (is_4state : Bool) (stack : List ℕ) (i fd : ℕ) (p : Pulled os.World)
      → Fits is_4state width mem
      → Fits is_4state width stack
      → find name s.server_name_to_idx ≡ some i
      → s.sockets i ≡ some fd
      → multisim_server_pull_core os fuel t s name mem width is_4state stack ≡ returned p
      → (r : Ret × Bytes × os.World) × (read_msg os fuel s.world fd
            (buf_size is_4state width)
            (read_target is_4state mem stack)
          ≡ returned r)
        × PullOutcome os stream t is_4state width mem s i fd r p
  unfolding multisim_server_pull_core get_server_idx connect_client pull_connected
  multisim_server_pull_core-PullOutcome fuel t s name mem width is_4state stack i fd p m b f c e =
      let size = buf_size is_4state width in
      let target = read_target is_4state mem stack in
      let (r, reads, e1) =
        >>=-eq-returned (read_msg os fuel s.world fd size target) _
          (rw (f, get_server_idx, c, connect_client) at e) in
      let out : pull_result os t is_4state width mem s i fd r ≡ p = returned-injective e1 in
      (
        r,
        reads,
        rw (← out) (
            pull_result-PullOutcome t is_4state width mem stack s i fd r m b (
              read_msg-Taken os stream fuel s.world fd size target r
                (omega (arith, length-read_target is_4state width mem stack m b)) reads)),
      )
