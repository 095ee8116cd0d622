-- ===== src/MultisimClient/Transfer.antt =====
-- `multisim_client_push_core` and `multisim_client_pull_core` (src/core/multisim_client.cpp).
use multisim.Base.{
  empty_of_length, ℕ, zero, suc, ◌≡◌, refl, sym, ◌∙◌, ap, inl, inr, Bool, List, [], ◌++◌, Bytes,
  length, take, ◌<◌, drop_all, arith, append-nil, some, returned, >>=-eq-returned,
  returned-injective,
}
use multisim.Os.{Os, Ret, count, failed}
use multisim.SocketIo.{send_msg, read_msg}
use multisim.SocketIo.Stream.{IsStream}
use multisim.SocketIo.Send.{Sent, send_msg-Sent}
use multisim.SocketIo.Read.{Taken, read_msg-Taken}
use multisim.Names.{find, get_server_idx}
use multisim.Data.{Target, buf_size, message, read_target, pulled, not_pulled}
use multisim.Data.Message.{Fits, length-read_target, not_pulled-read_target}
use multisim.MultisimServer.{success, fail}
use multisim.MultisimClient.{
  State, Pulled, push_result, multisim_client_push_core, pull_result, multisim_client_pull_core,
}

-- How a client's push of `msg` on its socket `fd` ends: all of the message is on the stream, or none
-- of it, or the connection broke behind a first part of it that is not all of it, which nothing can
-- follow in order. Only the world changes.
pub data PushOutcome (os : Os) (stream : IsStream os) (msg : Bytes) (s : State os.World) (fd : ℕ)
    (q : ℕ × State os.World) : Type 0 where
  accepted :
      q.0 ≡ success
      → q.1 ≡ record s { world = q.1.world }
      → stream.sent q.1.world fd ≡ stream.sent s.world fd ++ msg
      → PushOutcome os stream msg s fd q
  refused :
      q.0 ≡ fail
      → q.1 ≡ record s { world = q.1.world }
      → stream.sent q.1.world fd ≡ stream.sent s.world fd
      → PushOutcome os stream msg s fd q
  broken :
      (k : ℕ)
      → k < length msg
      → q.0 ≡ fail
      → q.1 ≡ record s { world = q.1.world }
      → stream.sent q.1.world fd ≡ stream.sent s.world fd ++ take k msg
      → PushOutcome os stream msg s fd q

-- How a client's pull into the array `mem` ends: the next whole message is off the stream and in the
-- array, or nothing is and the array is as before, or the stream ended behind a part of the message that
-- is not all of it. Only the world changes.
pub data PullOutcome (os : Os) (stream : IsStream os) (t : Target) (is_4state : Bool) (width : ℕ)
    (mem : List ℕ) (s : State os.World) (fd : ℕ) (p : Pulled os.World) : Type 0 where
  delivered :
      (taken : Bytes)
      → length taken ≡ buf_size is_4state width
      → p.status ≡ success
      → p.state ≡ record s { world = p.state.world }
      → stream.got p.state.world fd ≡ stream.got s.world fd ++ taken
      → p.array ≡ pulled t is_4state width mem taken
      → PullOutcome os stream t is_4state width mem s fd p
  nothing :
      p.status ≡ fail
      → p.state ≡ record s { world = p.state.world }
      → stream.got p.state.world fd ≡ stream.got s.world fd
      → p.array ≡ mem
      → PullOutcome os stream t is_4state width mem s fd p
  ended :
      (taken : Bytes)
      → length taken < buf_size is_4state width
      → p.status ≡ fail
      → p.state ≡ record s { world = p.state.world }
      → stream.got p.state.world fd ≡ stream.got s.world fd ++ taken
      → PullOutcome os stream t is_4state width mem s fd p

module _ (os : Os) (stream : IsStream os) where
  push_result-PushOutcome :
      (msg : Bytes) (s : State os.World) (fd : ℕ) (r : Ret × os.World)
      → Sent msg (stream.sent s.world fd) r.0 (stream.sent r.1 fd)
      → PushOutcome os stream msg s fd (push_result os s r)
  unfolding push_result
  push_result-PushOutcome msg s fd (count (suc k), w) (inl (whole, on)) = accepted refl refl on
  push_result-PushOutcome msg s fd (count (suc k), w) (inr (none', part)) = absurd (omega arith)
  push_result-PushOutcome msg s fd (count zero, w) (inl (whole, on)) =
      refused refl refl (on ∙ ap (◌++◌ _) (empty_of_length msg (sym whole)) ∙ append-nil _)
  push_result-PushOutcome msg s fd (count zero, w) (inr (none', (k, less, on))) =
      broken k less refl refl on
  push_result-PushOutcome msg s fd (failed e, w) h = refused refl refl h

  -- A client's push to a started server, where it returns, gives success only where all of the
  -- message is on the stream; otherwise it gives failure, and none of the message is on the stream
  -- or a first part of it that is not all of it. Only the world changes.
  pub multisim_client_push_core-PushOutcome :
      (fuel : ℕ) (t : Target) (s : State os.World) (name : Bytes) (mem : List ℕ) (width : ℕ)
      (is_4state : Bool) (stack : List ℕ) (i : ℕ) (q : ℕ × State os.World)
      → find name s.server_name_to_idx ≡ some i
      → multisim_client_push_core os fuel t s name mem width is_4state stack ≡ returned q
      → PushOutcome os stream (message t is_4state width mem stack) s (s.sockets i) q
  unfolding multisim_client_push_core get_server_idx
  multisim_client_push_core-PushOutcome fuel t s name mem width is_4state stack i q f e =
      let msg = message t is_4state width mem stack in
      let (r, sends, e1) =
        >>=-eq-returned (send_msg os fuel s.world (s.sockets i) msg) _
          (rw (f, get_server_idx) at e) in
      let out : push_result os s r ≡ q = returned-injective e1 in
      rw (← out) (
        push_result-PushOutcome msg s (s.sockets i) r
          (send_msg-Sent os stream fuel s.world r.1 (s.sockets i) msg r.0 sends))

  -- A read that took nothing leaves the array as it was.
  nothing_taken :
      (t : Target) (is_4state : Bool) (width : ℕ) (mem stack : List ℕ) (s : State os.World) (fd : ℕ)
      (w : os.World) (dst : Bytes) {taken : Bytes}
      → Fits is_4state width mem
      → taken ≡ []
      → stream.got w fd ≡ stream.got s.world fd ++ taken
      → dst ≡ read_target is_4state mem stack
      → PullOutcome os stream t is_4state width mem s fd (record {
        status = 0;
        array = not_pulled is_4state mem dst;
        state = record s { world = w };
      })
  nothing_taken t is_4state width mem stack s fd w dst m none' on same =
      nothing refl refl (on ∙ ap (◌++◌ (stream.got s.world fd)) none' ∙ append-nil _)
        (ap (not_pulled is_4state mem) same ∙ not_pulled-read_target is_4state width mem stack m)

  pull_result-PullOutcome :
      (t : Target) (is_4state : Bool) (width : ℕ) (mem stack : List ℕ) (s : State os.World) (fd : ℕ)
      (r : Ret × Bytes × os.World)
      → Fits is_4state width mem
      → Fits is_4state width stack
      → Taken
          (buf_size is_4state width)
          (read_target is_4state mem stack)
          (stream.got s.world fd)
          r.0
          r.1
          (stream.got r.2 fd)
      → PullOutcome os stream t is_4state width mem s fd (pull_result os t is_4state width mem s r)
  unfolding pull_result
  pull_result-PullOutcome t is_4state width mem stack s fd (count (suc k), dst, w) m b v =
      let size = length-read_target is_4state width mem stack m b in
      let whole : length v.taken ≡ buf_size is_4state width = omega (arith, v.counted) in
      let all : dst ≡ v.taken =
        v.memory
        ∙ ap (◌++◌ v.taken)
            (drop_all (length v.taken) (read_target is_4state mem stack) (omega arith))
        ∙ append-nil v.taken in
      delivered v.taken whole refl refl v.stream (ap (pulled t is_4state width mem) all)
  pull_result-PullOutcome t is_4state width mem stack s fd (count zero, dst, w) m b v =
      elim v.counted [
        | inl (empty, size) ↦
            let none' = empty_of_length v.taken (size ∙ sym empty) in
            nothing_taken t is_4state width mem stack s fd w dst m none' v.stream
              (rw none' at v.memory)
        | inr (zero', less) ↦ ended v.taken less refl refl v.stream
      ]
  pull_result-PullOutcome t is_4state width mem stack s fd (failed e, dst, w) m b v =
      let none' = empty_of_length v.taken v.counted in
      nothing_taken t is_4state width mem stack s fd w dst m none' v.stream (rw none' at v.memory)

  -- A client's pull from a started server, where it returns, ends in one of three ways: it gives
  -- success, and the next whole message is off the stream and in the array; it gives failure,
  -- nothing is off the stream and the array is as before; or it gives failure behind a part of the
  -- message that is not all of it. Only the world changes.
  pub multisim_client_pull_core-PullOutcome :
      (fuel : ℕ) (t : Target) (s : State os.World) (name : Bytes) (mem : List ℕ) (width : ℕ)
      (is_4state : Bool) (stack : List ℕ) (i : ℕ) (p : Pulled os.World)
      → Fits is_4state width mem
      → Fits is_4state width stack
      → find name s.server_name_to_idx ≡ some i
      → multisim_client_pull_core os fuel t s name mem width is_4state stack ≡ returned p
      → PullOutcome os stream t is_4state width mem s (s.sockets i) p
  unfolding multisim_client_pull_core get_server_idx
  multisim_client_pull_core-PullOutcome fuel t s name mem width is_4state stack i p m b f e =
      let size = buf_size is_4state width in
      let target = read_target is_4state mem stack in
      let (r, reads, e1) =
        >>=-eq-returned (read_msg os fuel s.world (s.sockets i) size target) _
          (rw (f, get_server_idx) at e) in
      let out : pull_result os t is_4state width mem s r ≡ p = returned-injective e1 in
      rw (← out) (
        pull_result-PullOutcome t is_4state width mem stack s (s.sockets i) r m b (
          read_msg-Taken os stream fuel s.world (s.sockets i) size target r
            (omega (arith, length-read_target is_4state width mem stack m b)) reads))
