-- ===== src/MultisimServer/Push.antt =====
-- `multisim_server_push_core` (src/core/multisim_server.cpp) on every branch.
use multisim.Base.{
  empty_of_length, ℕ, zero, suc, ◌≡◌, ◌≢◌, ◌⊎◌, refl, inl, inr, Bool, List, ◌++◌, Bytes, arith, ◌<◌,
  length, take, append-nil, sym, ◌∙◌, ap, none, some, returned, >>=-eq-returned, returned-injective,
}
use multisim.Os.{Os, Ret, count, failed, eagain, ewouldblock, eintr, other}
use multisim.SocketIo.{send_msg}
use multisim.SocketIo.Stream.{IsStream}
use multisim.SocketIo.Send.{Sent, send_msg-Sent}
use multisim.Names.{find, get_server_idx}
use multisim.Data.{Target, message}
use multisim.MultisimServer.{
  State, success, fail, update, would_block, drop_client, connect_client, push_result,
  push_connected, multisim_server_push_core,
}

-- How a push of `msg` on the socket `fd` of index `i` ends, behind a `send_msg` that gave `r`.
-- Accepted: all of the message is on the stream. Blocked: the socket takes nothing now, none of the
-- message is on the stream, and the client is kept, so the caller can try again. Lost: the connection
-- broke before all of the message was on the stream (`k` is the length of the part that is), the socket is closed and its slot free, so that the next call takes a new client. Nothing
-- else of the process changes.
pub data PushOutcome (os : Os) (stream : IsStream os) (msg : Bytes) (s : State os.World) (i fd : ℕ)
    (r : Ret × os.World) (q : ℕ × State os.World) : Type 0 where
  accepted :
      q.0 ≡ success
      → q.1 ≡ record s { world = r.1 }
      → stream.sent r.1 fd ≡ stream.sent s.world fd ++ msg
      → PushOutcome os stream msg s i fd r q
  blocked :
      (r.0 ≡ failed eagain) ⊎ (r.0 ≡ failed ewouldblock)
      → q.0 ≡ fail
      → q.1 ≡ record s { world = r.1 }
      → stream.sent r.1 fd ≡ stream.sent s.world fd
      → PushOutcome os stream msg s i fd r q
  lost :
      (k : ℕ)
      → (k ≡ 0) ⊎ (k < length msg)
      → stream.sent r.1 fd ≡ stream.sent s.world fd ++ take k msg
      → r.0 ≢ failed eagain
      → r.0 ≢ failed ewouldblock
      → q.0 ≡ fail
      → q.1 ≡ record s { world = os.close r.1 fd; sockets = update s.sockets i none }
      → PushOutcome os stream msg s i fd r q

module _ (os : Os) (stream : IsStream os) where
  push_result-PushOutcome :
      (msg : Bytes) (s : State os.World) (i fd : ℕ) (r : Ret × os.World)
      → Sent msg (stream.sent s.world fd) r.0 (stream.sent r.1 fd)
      → PushOutcome os stream msg s i fd r (push_result os s i fd r)
  unfolding push_result drop_client would_block
  push_result-PushOutcome msg s i fd (count (suc k), w) (inl (whole, on)) = accepted refl refl on
  push_result-PushOutcome msg s i fd (count (suc k), w) (inr (none', part)) = absurd (omega arith)
  push_result-PushOutcome msg s i fd (count zero, w) (inl (whole, on)) =
      let none' = empty_of_length msg (sym whole) in
      lost 0 (inl refl) (on ∙ ap (◌++◌ _) none') (λ e. cc) (λ e. cc) refl refl
  push_result-PushOutcome msg s i fd (count zero, w) (inr (none', (k, less, on))) =
      lost k (inr less) on (λ e. cc) (λ e. cc) refl refl
  push_result-PushOutcome msg s i fd (failed eagain, w) h = blocked (inl refl) refl refl h
  push_result-PushOutcome msg s i fd (failed ewouldblock, w) h = blocked (inr refl) refl refl h
  push_result-PushOutcome msg s i fd (failed eintr, w) h =
      lost 0 (inl refl) (h ∙ sym (append-nil _)) (λ e. cc) (λ e. cc) refl refl
  push_result-PushOutcome msg s i fd (failed (other n), w) h =
      lost 0 (inl refl) (h ∙ sym (append-nil _)) (λ e. cc) (λ e. cc) refl refl

  -- A push to a connected server, where it returns, is one `send_msg` of the message on the server's
  -- socket, and ends in one of the three ways: it gives success only where all of the message was
  -- sent, in however many parts, keeps the client on EAGAIN and EWOULDBLOCK, where none of it was
  -- sent, and drops it on any other failure, where at most a first part of the message was sent that
  -- is not all of it.
  pub multisim_server_push_core-PushOutcome :
      (fuel : ℕ) (t : Target) (s : State os.World) (name : Bytes) (mem : List ℕ) (width : ℕ)
      (is_4state : Bool) (stack : List ℕ) (i fd : ℕ) (q : ℕ × State os.World)
      → find name s.server_name_to_idx ≡ some i
      → s.sockets i ≡ some fd
      → multisim_server_push_core os fuel t s name mem width is_4state stack ≡ returned q
      → (r : Ret × os.World) × (send_msg os fuel s.world fd (message t is_4state width mem stack)
          ≡ returned r)
        × PushOutcome os stream (message t is_4state width mem stack) s i fd r q
  unfolding multisim_server_push_core get_server_idx connect_client push_connected
  multisim_server_push_core-PushOutcome fuel t s name mem width is_4state stack i fd q f c e =
      let msg = message t is_4state width mem stack in
      let (r, sends, e1) =
        >>=-eq-returned (send_msg os fuel s.world fd msg) _
          (rw (f, get_server_idx, c, connect_client) at e) in
      let out : push_result os s i fd r ≡ q = returned-injective e1 in
      (
        r,
        sends,
        rw (← out) (
            push_result-PushOutcome msg s i fd r
              (send_msg-Sent os stream fuel s.world r.1 fd msg r.0 sends)),
      )
