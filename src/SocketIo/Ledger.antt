-- ===== src/SocketIo/Ledger.antt =====
-- Which connections are open: what the code relies on of the calls that open and close them.
use multisim.Base.{ℕ, ◌≡◌, ◌≢◌, true, false, Bool, List, Bytes, none, some}
use multisim.Os.{Os, Events}

-- `is_open w fd` says that `fd` is a connection that the process has accepted and not closed. A new
-- one has a descriptor that no open one has, and so has a new socket or an open directory; no other
-- call opens or closes any.
pub record IsLedger (os : Os) : Type 0 where
  pub is_open : os.World → ℕ → Bool
  pub send_same :
      (w : os.World) (fd x : ℕ) (buf : Bytes) → is_open (os.send w fd buf).1 x ≡ is_open w x
  pub read_same : (w : os.World) (fd x n : ℕ) → is_open (os.read w fd n).1 x ≡ is_open w x
  pub wait_same :
      (w : os.World) (fd x : ℕ) (ev : Events) → is_open (os.wait w fd ev) x ≡ is_open w x
  pub nonblock_same : (w : os.World) (fd x : ℕ) → is_open (os.set_nonblock w fd) x ≡ is_open w x
  pub poll_same :
      (w : os.World) (fds : List ℕ) (x : ℕ) → is_open (os.poll_in w fds).1 x ≡ is_open w x
  pub accept_none :
      (w : os.World) (l x : ℕ)
      → (os.accept w l).0 ≡ none
      → is_open (os.accept w l).1 x ≡ is_open w x
  pub accept_fresh : (w : os.World) (l fd : ℕ) → (os.accept w l).0 ≡ some fd → is_open w fd ≡ false
  pub accept_opens :
      (w : os.World) (l fd : ℕ) → (os.accept w l).0 ≡ some fd → is_open (os.accept w l).1 fd ≡ true
  pub accept_other :
      (w : os.World) (l fd x : ℕ)
      → (os.accept w l).0 ≡ some fd
      → x ≢ fd
      → is_open (os.accept w l).1 x ≡ is_open w x
  pub close_gone : (w : os.World) (fd : ℕ) → is_open (os.close w fd) fd ≡ false
  pub close_other : (w : os.World) (fd x : ℕ) → x ≢ fd → is_open (os.close w fd) x ≡ is_open w x
  pub socket_inet_same : (w : os.World) (x : ℕ) → is_open (os.socket_inet w).1 x ≡ is_open w x
  pub socket_unix_same : (w : os.World) (x : ℕ) → is_open (os.socket_unix w).1 x ≡ is_open w x
  pub bind_inet_same :
      (w : os.World) (fd p : ℕ) (x : ℕ) → is_open (os.bind_inet w fd p).1 x ≡ is_open w x
  pub bind_unix_same :
      (w : os.World) (fd : ℕ) (path : Bytes) (x : ℕ)
      → is_open (os.bind_unix w fd path).1 x ≡ is_open w x
  pub listen_same : (w : os.World) (fd : ℕ) (x : ℕ) → is_open (os.listen w fd).1 x ≡ is_open w x
  pub interfaces_same : (w : os.World) (x : ℕ) → is_open (os.interfaces w).1 x ≡ is_open w x
  pub realpath_same :
      (w : os.World) (path : Bytes) (x : ℕ) → is_open (os.realpath w path).1 x ≡ is_open w x
  pub open_dir_same :
      (w : os.World) (path : Bytes) (x : ℕ) → is_open (os.open_dir w path).1 x ≡ is_open w x
  pub write_file_same :
      (w : os.World) (path text : Bytes) (x : ℕ)
      → is_open (os.write_file w path text).1 x ≡ is_open w x
  pub mkdir_same : (w : os.World) (path : Bytes) (x : ℕ) → is_open (os.mkdir w path) x ≡ is_open w x
  pub unlink_same :
      (w : os.World) (path : Bytes) (x : ℕ) → is_open (os.unlink w path) x ≡ is_open w x
  pub socket_unix_fresh :
      (w : os.World) (fd : ℕ) → (os.socket_unix w).0 ≡ some fd → is_open w fd ≡ false
  pub open_dir_fresh :
      (w : os.World) (path : Bytes) (fd : ℕ)
      → (os.open_dir w path).0 ≡ some fd
      → is_open w fd ≡ false
