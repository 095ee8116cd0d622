-- ===== src/SocketServer/Ledger.antt =====
-- `Server::acceptNewSocket` (src/core/socket_server/server.cpp) opens what it returns, and nothing else.
use multisim.Base.{
  ℕ, ◌≡◌, ◌≢◌, ◌∙◌, refl, sym, true, false, Bool, List, get_or, Option, none, some, Option-cases,
  inl, inr,
}
use multisim.Os.{Os}
use multisim.SocketIo.Ledger.{IsLedger}
use multisim.SocketServer.{
  Server, accept_unix, accept_tcp, unblocked, listening, accept_ready, accept_new_socket,
}

module _ (os : Os) (ledger : IsLedger os) where
  open ledger use {is_open}

  pub data Opened (w : os.World) (q : Option ℕ × os.World) : Type 0 where
    nothing_new : q.0 ≡ none → ((x : ℕ) → is_open q.1 x ≡ is_open w x) → Opened w q
    one_new :
        (fd : ℕ)
        → q.0 ≡ some fd
        → is_open w fd ≡ false
        → is_open q.1 fd ≡ true
        → ((x : ℕ) → x ≢ fd → is_open q.1 x ≡ is_open w x)
        → Opened w q

  -- The open connections are those of another system.
  behind-Opened :
      (w w1 : os.World) (q : Option ℕ × os.World)
      → ((x : ℕ) → is_open w1 x ≡ is_open w x)
      → Opened w1 q
      → Opened w q
  behind-Opened w w1 q h (nothing_new e same) = nothing_new e (λ x. same x ∙ h x)
  behind-Opened w w1 q h (one_new fd e fresh opens other) =
      one_new fd e (sym (h fd) ∙ fresh) opens (λ x d. other x d ∙ h x)

  accept-Opened : (w : os.World) (l : ℕ) → Opened w (os.accept w l)
  accept-Opened w l = elim (Option-cases (os.accept w l).0) [
    | inl e ↦ nothing_new e (λ x. ledger.accept_none w l x e)
    | inr (fd, e) ↦
        one_new fd e (ledger.accept_fresh w l fd e) (ledger.accept_opens w l fd e)
          (λ x d. ledger.accept_other w l fd x e d)
  ]

  accept_unix-Opened :
      (w : os.World) (unix_fd : Option ℕ) (ready : Bool) → Opened w (accept_unix os w unix_fd ready)
  unfolding accept_unix
  accept_unix-Opened w (some l) true = accept-Opened w l
  accept_unix-Opened w (some l) false = nothing_new refl (λ x. refl)
  accept_unix-Opened w none ready = nothing_new refl (λ x. refl)

  accept_tcp-Opened :
      (w : os.World) (s : Server) (ready : Bool) (q : Option ℕ × os.World)
      → Opened w q
      → Opened w (accept_tcp os s ready q)
  unfolding accept_tcp
  accept_tcp-Opened w s true (none, w1) (nothing_new e same) =
      behind-Opened w w1 (os.accept w1 s.server_fd) same (accept-Opened w1 s.server_fd)
  accept_tcp-Opened w s true (none, w1) (one_new fd e fresh opens other) = absurd cc
  accept_tcp-Opened w s false (none, w1) a = a
  accept_tcp-Opened w s true (some x, w1) a = a
  accept_tcp-Opened w s false (some x, w1) a = a

  unblocked-Opened :
      (w : os.World) (q : Option ℕ × os.World) → Opened w q → Opened w (unblocked os q)
  unfolding unblocked
  unblocked-Opened w (none, w1) a = a
  unblocked-Opened w (some x, w1) (nothing_new e same) = absurd cc
  unblocked-Opened w (some x, w1) (one_new fd e fresh opens other) =
      one_new fd e fresh (ledger.nonblock_same w1 x fd ∙ opens)
        (λ y d. ledger.nonblock_same w1 x y ∙ other y d)

  accept_ready-Opened :
      (w : os.World) (s : Server) (polled : Option (List Bool) × os.World)
      → ((x : ℕ) → is_open polled.1 x ≡ is_open w x)
      → Opened w (accept_ready os s polled)
  unfolding accept_ready
  accept_ready-Opened w s (none, w1) k = nothing_new refl k
  accept_ready-Opened w s (some revents, w1) k = unblocked-Opened w _ (
      accept_tcp-Opened w s (get_or revents 0 false) _
        (behind-Opened w w1 _ k (accept_unix-Opened w1 s.unix_fd (get_or revents 1 false))))

  pub accept_new_socket-Opened : (w : os.World) (s : Server) → Opened w (accept_new_socket os w s)
  unfolding accept_new_socket
  accept_new_socket-Opened w s =
      accept_ready-Opened w s (os.poll_in w (listening os s))
        (λ x. ledger.poll_same w (listening os s) x)
