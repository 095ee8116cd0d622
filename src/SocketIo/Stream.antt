-- ===== src/SocketIo/Stream.antt =====
-- What the code relies on of `send`, `read` and `poll` on a connected stream socket.
use multisim.Base.{ℕ, ◌≤◌, ◌<◌, ◌≡◌, ◌++◌, true, Bytes, length, take}
use multisim.Os.{Os, Errno, count, failed, bytes, no_bytes, Events, pollin, pollout}
use multisim.SocketIo.{is_transient}

-- `sent w fd` are the bytes that the system has accepted on `fd` since it was connected, and
-- `got w fd` those that it has handed out: send() takes a first part of the bytes that it is given,
-- read() gives at most as many as it is asked for, a failing call moves none, and poll() neither.
pub record IsStream (os : Os) : Type 0 where
  pub sent : os.World → ℕ → Bytes
  pub got : os.World → ℕ → Bytes
  pub send_count :
      (w : os.World) (fd : ℕ) (buf : Bytes) (k : ℕ)
      → (os.send w fd buf).0 ≡ count k
      → (k ≤ length buf) × (sent (os.send w fd buf).1 fd ≡ sent w fd ++ take k buf)
  pub send_failed :
      (w : os.World) (fd : ℕ) (buf : Bytes) (e : Errno)
      → (os.send w fd buf).0 ≡ failed e
      → sent (os.send w fd buf).1 fd ≡ sent w fd
  pub send_got : (w : os.World) (fd : ℕ) (buf : Bytes) → got (os.send w fd buf).1 fd ≡ got w fd
  pub read_bytes :
      (w : os.World) (fd n : ℕ) (bs : Bytes)
      → (os.read w fd n).0 ≡ bytes bs
      → (length bs ≤ n) × (got (os.read w fd n).1 fd ≡ got w fd ++ bs)
  pub read_failed :
      (w : os.World) (fd n : ℕ) (e : Errno)
      → (os.read w fd n).0 ≡ no_bytes e
      → got (os.read w fd n).1 fd ≡ got w fd
  pub read_sent : (w : os.World) (fd n : ℕ) → sent (os.read w fd n).1 fd ≡ sent w fd
  pub wait_sent : (w : os.World) (fd : ℕ) (ev : Events) → sent (os.wait w fd ev) fd ≡ sent w fd
  pub wait_got : (w : os.World) (fd : ℕ) (ev : Events) → got (os.wait w fd ev) fd ≡ got w fd

-- A poll() for the event that the failed call waits for, POLLOUT behind a send and POLLIN behind a
-- read, comes back when the descriptor is ready for that call, so the transient failures of one
-- descriptor come to an end: `stalls` bounds how many of them can follow one another. Nothing is said
-- of a poll() for the other event, which need not come back. A peer that does nothing more, so that
-- the poll() for the right event blocks for ever, is excluded.
pub record IsResponsive (os : Os) : Type 0 where
  pub stalls : os.World → ℕ → ℕ
  pub send_stalls :
      (w : os.World) (fd : ℕ) (buf : Bytes) (e : Errno)
      → (os.send w fd buf).0 ≡ failed e
      → is_transient e ≡ true
      → (os.comes_back (os.send w fd buf).1 fd pollout ≡ true)
        × (stalls (os.wait (os.send w fd buf).1 fd pollout) fd < stalls w fd)
  pub read_stalls :
      (w : os.World) (fd n : ℕ) (e : Errno)
      → (os.read w fd n).0 ≡ no_bytes e
      → is_transient e ≡ true
      → (os.comes_back (os.read w fd n).1 fd pollin ≡ true)
        × (stalls (os.wait (os.read w fd n).1 fd pollin) fd < stalls w fd)
