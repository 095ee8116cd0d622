-- ===== src/SocketServer/Frame.antt =====
-- `Server::acceptNewSocket` (src/core/socket_server/server.cpp) leaves the open connections alone.
use multisim.Base.{ℕ, ◌≡◌, ◌≢◌, true, false, Bool, List, get_or, Option, none, some}
use multisim.Os.{Os}
use multisim.SocketIo.Stream.{IsStream}
use multisim.SocketIo.Separate.{IsSeparate, Kept, Kept-refl, Kept-trans}
use multisim.SocketServer.{
  Server, accept_unix, accept_tcp, unblocked, listening, accept_ready, accept_new_socket,
}

module _ (os : Os) (stream : IsStream os) (sep : IsSeparate os stream) (fd : ℕ) where
  open sep use {is_open, accept_kept, accept_new, nonblock_kept, poll_kept}

  -- Behind `w`: the connection is kept, and the descriptor that was taken is another.
  pub record Accepted (w : os.World) (q : Option ℕ × os.World) : Type 0 where
    pub kept : Kept os stream is_open fd w q.1
    pub other : q.0 ≢ some fd

  accept-Accepted : (w : os.World) (l : ℕ) → is_open w fd ≡ true → Accepted w (os.accept w l)
  accept-Accepted w l h = record { kept = accept_kept w fd l h; other = accept_new w fd l h }

  same-Accepted : (w : os.World) → is_open w fd ≡ true → Accepted w (none, w)
  same-Accepted w h = record { kept = Kept-refl os stream is_open fd w h; other = λ e. cc }

  behind-Accepted :
      (w w1 : os.World) (q : Option ℕ × os.World)
      → Kept os stream is_open fd w w1
      → Accepted w1 q
      → Accepted w q
  behind-Accepted w w1 q k a = record {
    kept = Kept-trans os stream is_open fd w w1 q.1 k a.kept;
    other = a.other;
  }

  accept_unix-Accepted :
      (w : os.World) (unix_fd : Option ℕ) (ready : Bool)
      → is_open w fd ≡ true
      → Accepted w (accept_unix os w unix_fd ready)
  unfolding accept_unix
  accept_unix-Accepted w (some l) true h = accept-Accepted w l h
  accept_unix-Accepted w (some l) false h = same-Accepted w h
  accept_unix-Accepted w none ready h = same-Accepted w h

  accept_tcp-Accepted :
      (w : os.World) (s : Server) (ready : Bool) (q : Option ℕ × os.World)
      → Accepted w q
      → Accepted w (accept_tcp os s ready q)
  unfolding accept_tcp
  accept_tcp-Accepted w s true (none, w1) a =
      behind-Accepted w w1 (os.accept w1 s.server_fd) a.kept
        (accept-Accepted w1 s.server_fd a.kept.still_open)
  accept_tcp-Accepted w s false (none, w1) a = a
  accept_tcp-Accepted w s true (some x, w1) a = a
  accept_tcp-Accepted w s false (some x, w1) a = a

  unblocked-Accepted :
      (w : os.World) (q : Option ℕ × os.World) → Accepted w q → Accepted w (unblocked os q)
  unfolding unblocked
  unblocked-Accepted w (none, w1) a = a
  unblocked-Accepted w (some x, w1) a = record {
    kept =
        Kept-trans os stream is_open fd w w1 (os.set_nonblock w1 x) a.kept
          (nonblock_kept w1 fd x a.kept.still_open);
    other = a.other;
  }

  accept_ready-Accepted :
      (w : os.World) (s : Server) (polled : Option (List Bool) × os.World)
      → Kept os stream is_open fd w polled.1
      → Accepted w (accept_ready os s polled)
  unfolding accept_ready
  accept_ready-Accepted w s (none, w1) k =
      behind-Accepted w w1 (none, w1) k (same-Accepted w1 k.still_open)
  accept_ready-Accepted w s (some revents, w1) k = unblocked-Accepted w _ (
      accept_tcp-Accepted w s (get_or revents 0 false) _ (
        behind-Accepted w w1 _ k
          (accept_unix-Accepted w1 s.unix_fd (get_or revents 1 false) k.still_open)))

  pub accept_new_socket-Accepted :
      (w : os.World) (s : Server) → is_open w fd ≡ true → Accepted w (accept_new_socket os w s)
  unfolding accept_new_socket
  accept_new_socket-Accepted w s h =
      accept_ready-Accepted w s (os.poll_in w (listening os s)) (poll_kept w fd (listening os s) h)
