-- ===== src/MultisimClient/Frame.antt =====
-- The calls on one channel of a client process (src/core/multisim_client.cpp) keep the connections of
-- the process open, and leave the other channels alone.
use multisim.Base.{
  ℕ, zero, suc, ◌≡◌, ◌≢◌, subst, true, Bool, List, Bytes, some, returned, returned-injective,
  >>=-eq-returned,
}
use multisim.Os.{Os, Ret, count, failed}
use multisim.SocketIo.{send_msg, read_msg}
use multisim.SocketIo.Stream.{IsStream}
use multisim.SocketIo.Frame.{send_msg-keeps, read_msg-keeps}
use multisim.SocketIo.Separate.{IsSeparate, Kept, Kept-refl, Kept-trans}
use multisim.Names.{find, get_server_idx}
use multisim.Data.{Target, buf_size, read_target, message}
use multisim.MultisimClient.{
  State, Pulled, push_result, pull_result, multisim_client_push_core, multisim_client_pull_core,
}

module _ (os : Os) where
  push_result-world :
      (P : os.World → Type 0) (s : State os.World) (r : Ret × os.World)
      → P r.1
      → P (push_result os s r).1.world
  unfolding push_result
  push_result-world P s (count (suc k), w) h = h
  push_result-world P s (count zero, w) h = h
  push_result-world P s (failed e, w) h = h

  pull_result-world :
      (P : os.World → Type 0) (t : Target) (b : Bool) (width : ℕ) (mem : List ℕ)
      (s : State os.World) (r : Ret × Bytes × os.World)
      → P r.2
      → P (pull_result os t b width mem s r).state.world
  unfolding pull_result
  pull_result-world P t b width mem s (count (suc k), dst, w) h = h
  pull_result-world P t b width mem s (count zero, dst, w) h = h
  pull_result-world P t b width mem s (failed e, dst, w) h = h

  -- What `send_msg` on the channel's socket keeps, a push keeps; and so for `read_msg` and a pull.
  push_core-keeps :
      (P : os.World → Type 0) (fuel : ℕ) (t : Target) (s : State os.World) (name : Bytes)
      (mem : List ℕ) (width : ℕ) (b : Bool) (stack : List ℕ) (i : ℕ) (q : ℕ × State os.World)
      → ((msg : Bytes) (r : Ret × os.World)
          → send_msg os fuel s.world (s.sockets i) msg ≡ returned r
          → P r.1)
      → find name s.server_name_to_idx ≡ some i
      → multisim_client_push_core os fuel t s name mem width b stack ≡ returned q
      → P q.1.world
  unfolding multisim_client_push_core get_server_idx
  push_core-keeps P fuel t s name mem width b stack i q on f e =
      let msg = message t b width mem stack in
      let (r, sends, out) =
        >>=-eq-returned (send_msg os fuel s.world (s.sockets i) msg) _
          (rw (f, get_server_idx) at e) in
      subst (λ (v : ℕ × State os.World). P v.1.world) (returned-injective out)
        (push_result-world P s r (on msg r sends))

  pull_core-keeps :
      (P : os.World → Type 0) (fuel : ℕ) (t : Target) (s : State os.World) (name : Bytes)
      (mem : List ℕ) (width : ℕ) (b : Bool) (stack : List ℕ) (i : ℕ) (p : Pulled os.World)
      → ((size : ℕ) (dst : Bytes) (r : Ret × Bytes × os.World)
          → read_msg os fuel s.world (s.sockets i) size dst ≡ returned r
          → P r.2)
      → find name s.server_name_to_idx ≡ some i
      → multisim_client_pull_core os fuel t s name mem width b stack ≡ returned p
      → P p.state.world
  unfolding multisim_client_pull_core get_server_idx
  pull_core-keeps P fuel t s name mem width b stack i p on f e =
      let (r, reads, out) =
        >>=-eq-returned
          (read_msg os fuel s.world (s.sockets i) (buf_size b width) (read_target b mem stack)) _
          (rw (f, get_server_idx) at e) in
      subst (λ (v : Pulled os.World). P v.state.world) (returned-injective out)
        (pull_result-world P t b width mem s r (on _ _ r reads))

module _ (os : Os) (stream : IsStream os) (sep : IsSeparate os stream) where
  open sep use {is_open, send_open, read_open, send_kept, read_kept, wait_kept}

  -- A push on one socket leaves another connection alone, and its own open; and so does a pull.
  pub multisim_client_push_core-Kept :
      (fuel : ℕ) (t : Target) (s : State os.World) (name : Bytes) (mem : List ℕ) (width : ℕ)
      (b : Bool) (stack : List ℕ) (i fd : ℕ) (q : ℕ × State os.World)
      → find name s.server_name_to_idx ≡ some i
      → is_open s.world fd ≡ true
      → s.sockets i ≢ fd
      → multisim_client_push_core os fuel t s name mem width b stack ≡ returned q
      → Kept os stream is_open fd s.world q.1.world
  multisim_client_push_core-Kept fuel t s name mem width b stack i fd q f h d e =
      push_core-keeps os (Kept os stream is_open fd s.world) fuel t s name mem width b stack i q
        (λ msg r sends.
          send_msg-keeps os (Kept os stream is_open fd s.world) (s.sockets i)
            (λ w ev k.
              Kept-trans os stream is_open fd s.world w _ k (wait_kept w fd _ ev k.still_open))
            (λ w buf k.
              Kept-trans os stream is_open fd s.world w _ k (send_kept w fd _ buf k.still_open d))
            fuel s.world msg r (Kept-refl os stream is_open fd s.world h) sends)
        f e

  pub multisim_client_push_core-open :
      (fuel : ℕ) (t : Target) (s : State os.World) (name : Bytes) (mem : List ℕ) (width : ℕ)
      (b : Bool) (stack : List ℕ) (i : ℕ) (q : ℕ × State os.World)
      → find name s.server_name_to_idx ≡ some i
      → is_open s.world (s.sockets i) ≡ true
      → multisim_client_push_core os fuel t s name mem width b stack ≡ returned q
      → is_open q.1.world (s.sockets i) ≡ true
  multisim_client_push_core-open fuel t s name mem width b stack i q f h e =
      push_core-keeps os (λ w. is_open w (s.sockets i) ≡ true) fuel t s name mem width b stack i q
        (λ msg r sends.
          send_msg-keeps os (λ w. is_open w (s.sockets i) ≡ true) (s.sockets i)
            (λ w ev k. (wait_kept w (s.sockets i) (s.sockets i) ev k).still_open)
            (λ w buf k. send_open w (s.sockets i) buf k) fuel s.world msg r h sends)
        f e

  pub multisim_client_pull_core-Kept :
      (fuel : ℕ) (t : Target) (s : State os.World) (name : Bytes) (mem : List ℕ) (width : ℕ)
      (b : Bool) (stack : List ℕ) (i fd : ℕ) (p : Pulled os.World)
      → find name s.server_name_to_idx ≡ some i
      → is_open s.world fd ≡ true
      → s.sockets i ≢ fd
      → multisim_client_pull_core os fuel t s name mem width b stack ≡ returned p
      → Kept os stream is_open fd s.world p.state.world
  multisim_client_pull_core-Kept fuel t s name mem width b stack i fd p f h d e =
      pull_core-keeps os (Kept os stream is_open fd s.world) fuel t s name mem width b stack i p
        (λ size dst r reads.
          read_msg-keeps os (Kept os stream is_open fd s.world) (s.sockets i)
            (λ w ev k.
              Kept-trans os stream is_open fd s.world w _ k (wait_kept w fd _ ev k.still_open))
            (λ w n k.
              Kept-trans os stream is_open fd s.world w _ k (read_kept w fd _ n k.still_open d))
            fuel s.world size dst r (Kept-refl os stream is_open fd s.world h) reads)
        f e

  pub multisim_client_pull_core-open :
      (fuel : ℕ) (t : Target) (s : State os.World) (name : Bytes) (mem : List ℕ) (width : ℕ)
      (b : Bool) (stack : List ℕ) (i : ℕ) (p : Pulled os.World)
      → find name s.server_name_to_idx ≡ some i
      → is_open s.world (s.sockets i) ≡ true
      → multisim_client_pull_core os fuel t s name mem width b stack ≡ returned p
      → is_open p.state.world (s.sockets i) ≡ true
  multisim_client_pull_core-open fuel t s name mem width b stack i p f h e =
      pull_core-keeps os (λ w. is_open w (s.sockets i) ≡ true) fuel t s name mem width b stack i p
        (λ size dst r reads.
          read_msg-keeps os (λ w. is_open w (s.sockets i) ≡ true) (s.sockets i)
            (λ w ev k. (wait_kept w (s.sockets i) (s.sockets i) ev k).still_open)
            (λ w n k. read_open w (s.sockets i) n k) fuel s.world size dst r h reads)
        f e
